-- ===== src/Share/Rivals/Accesses.antt =====
-- create.go: what one access of a call of Create does to the rows.
use youpass_share_service.Base.{
  Bool, Bool-cases, Bytes, ap, bytes_eq, bytes_eq_refl, eq_of_bytes_eq, false, inl, inr, none≢some,
  refl, some, sym, true, ◌∙◌, ◌≡◌, nat_eq, bytes_eq_instance,
}
use youpass_share_service.Domain.Error.{Error, already_shared, duplicate_code, link_not_found}
use youpass_share_service.Domain.Link.{Link, new_link}
use youpass_share_service.Outcome.{Post-ret, Post-throw, ret, throw}
use youpass_share_service.Share.Service.{max_code_retry}
use youpass_share_service.Share.Ports.{CreateInput, LinkRepository}
use youpass_share_service.Share.Contract.{Holds, RepositoryLaws, Shares, Table}
use youpass_share_service.Share.Rivals.{
  Access, Caller, code_taken, drawing, drawn, exhausted, existing, failed, inserted, none_yet,
  not_asked, not_drawn, not_inserted, not_reread, reread, rereading, resource_taken, returned,
  wanted,
}

-- The call has made its link.
abbrev pub IsWinner : Caller → Type 0
IsWinner (returned l true) = Unit
IsWinner _ = ⊥

-- Two calls are about the same resource.
abbrev pub AreRivals : CreateInput → CreateInput → Type 0
AreRivals a b = (a.resource_type ≡ b.resource_type) × (a.resource_id ≡ b.resource_id)

module _ {R : Type 0} {links : LinkRepository R} (repo : RepositoryLaws links) where
  abbrev pub HasLink : R → CreateInput → Link → Type 0
  HasLink rows input l =
      (repo.table rows l.code ≡ some l) × Shares input.resource_type input.resource_id l

  -- A link that was returned is a live row.
  abbrev pub IsBacked : R → CreateInput → Caller → Type 0
  IsBacked rows input (returned l b) = HasLink rows input l
  IsBacked rows input _ = Unit

  -- Rows stay.
  abbrev pub Persist : R → R → Type 0
  Persist rows s = (c : Bytes) (l : Link) → repo.table rows c ≡ some l → repo.table s c ≡ some l

  -- What one access does.
  abbrev pub Accesses : R → CreateInput → R → Caller → Type 0
  Accesses rows input s c =
      repo.Inv s
      × Persist rows s
      × IsBacked s input c
      × (IsWinner c
          → ¬ (
              (d : Bytes) × Holds (repo.table rows) d
                (Shares input.resource_type input.resource_id)))

  same-Persist : (rows s : R) → repo.table s ≡ repo.table rows → Persist rows s
  same-Persist rows s e c l h = ap (λ (t : Table). t c) e ∙ h

  found_one :
      (input : CreateInput) (rows s : R) (l : Link) (b : Bool)
      → (IsWinner (returned l b) → ⊥)
      → repo.Inv rows
      → links.find_by_resource input.resource_type input.resource_id rows ≡ ret l s
      → Accesses rows input s (returned l b)
  found_one input rows s l b lost inv e =
      let (at, shares, same, inv') =
        Post-ret _ _ (links.find_by_resource input.resource_type input.resource_id rows) l s
          (repo.find_by_resource_lem input.resource_type input.resource_id rows inv) e in
      (
        inv',
        same-Persist rows s same,
        (same-Persist rows s same l.code l at, shares),
        λ w. absurd (lost w),
      )

  found_none :
      (input : CreateInput) (rows s : R) (x : Error) (c : Caller)
      → IsBacked s input c
      → (IsWinner c → ⊥)
      → repo.Inv rows
      → links.find_by_resource input.resource_type input.resource_id rows ≡ throw x s
      → Accesses rows input s c
  found_none input rows s x c backed lost inv e =
      let (_, same, inv') =
        Post-throw _ _ (links.find_by_resource input.resource_type input.resource_id rows) x s
          (repo.find_by_resource_lem input.resource_type input.resource_id rows inv) e in
      (inv', same-Persist rows s same, backed, λ w. absurd (lost w))

  not_inserted_one :
      (input : CreateInput) (code : Bytes) (rows s : R) (x : Error) (c : Caller)
      → IsBacked s input c
      → (IsWinner c → ⊥)
      → repo.Inv rows
      → links.insert (wanted input code) rows ≡ throw x s
      → Accesses rows input s c
  unfolding new_link
  not_inserted_one input code rows s x c backed lost inv e =
      let (_, same, inv') =
        Post-throw _ _ (links.insert (wanted input code) rows) x s
          (repo.insert_lem (wanted input code) rows refl inv) e in
      (inv', same-Persist rows s same, backed, λ w. absurd (lost w))

  inserted_one :
      (input : CreateInput) (code : Bytes) (rows s : R) (l : Link)
      → repo.Inv rows
      → links.insert (wanted input code) rows ≡ ret l s
      → Accesses rows input s (returned l true)
  unfolding new_link
  inserted_one input code rows s l inv e =
      let (free, alone, (id, t, is), new, inv') =
        Post-ret _ _ (links.insert (wanted input code) rows) l s
          (repo.insert_lem (wanted input code) rows refl inv) e in
      (
        inv',
        λ d m h. ap (λ (u : Table). u d) new ∙ (elim (Bool-cases (bytes_eq code d)) [
          | inl q ↦
              absurd (none≢some (sym free ∙ (ap (repo.table rows) (eq_of_bytes_eq code d q) ∙ h)))
          | inr q ↦ rw q h
        ]),
        (ap (λ (u : Table). u l.code) new ∙ rw (is, bytes_eq_refl) refl, rw is (refl, refl, refl)),
        λ _. alone,
      )

  pub Access-Accesses :
      (input : CreateInput) {rows : R} {c : Caller} {s : R} {d : Caller}
      → Access links input rows c s d
      → repo.Inv rows
      → Accesses rows input s d
  Access-Accesses input {rows} (existing {l} {s} e) inv =
      found_one input rows s l false (λ w. w) inv e
  Access-Accesses input {rows} (none_yet {s} e) inv =
      found_none input rows s link_not_found (drawing max_code_retry) tt (λ w. w) inv e
  Access-Accesses input {rows} (not_asked {e = x} {s} e n) inv =
      found_none input rows s x (failed x) tt (λ w. w) inv e
  Access-Accesses input {rows} (drawn code) inv = (inv, (λ d l h. h), tt, λ w. absurd w)
  Access-Accesses input {rows} (not_drawn e) inv = (inv, (λ d l h. h), tt, λ w. absurd w)
  Access-Accesses input {rows} exhausted inv = (inv, (λ d l h. h), tt, λ w. absurd w)
  Access-Accesses input {rows} (inserted {code = code} {l} {s} e) inv =
      inserted_one input code rows s l inv e
  Access-Accesses input {rows} (code_taken {n} {code} {s} e) inv =
      not_inserted_one input code rows s duplicate_code (drawing n) tt (λ w. w) inv e
  Access-Accesses input {rows} (resource_taken {code = code} {s} e) inv =
      not_inserted_one input code rows s already_shared rereading tt (λ w. w) inv e
  Access-Accesses input {rows} (not_inserted {code = code} {e = x} {s} e n m) inv =
      not_inserted_one input code rows s x (failed x) tt (λ w. w) inv e
  Access-Accesses input {rows} (reread {l} {s} e) inv =
      found_one input rows s l false (λ w. w) inv e
  Access-Accesses input {rows} (not_reread {e = x} {s} e) inv =
      found_none input rows s x (failed x) tt (λ w. w) inv e
