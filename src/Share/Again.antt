-- ===== src/Share/Again.antt =====
-- usecase/share/create.go: sharing a resource again, and what the cache makes of a new link.
use youpass_share_service.Base.{
  Bool, Bool-cases, Bytes, Option, ap, arith, bytes_eq, bytes_eq_refl, eq_of_bytes_eq,
  eq_of_some-eq, false, inl, inr, none, none≢some, refl, some, subst, sym, true, true≢false, ◌∙◌,
  ◌≡◌, ◌≢◌,
}
use youpass_share_service.Domain.Error.{err_is_refl, link_not_found}
use youpass_share_service.Domain.Link.{Link, new_link}
use youpass_share_service.Domain.Viewer.{Viewer}
use youpass_share_service.Domain.Code.{valid_code}
use youpass_share_service.Outcome.{Post, Post-mono, ret, throw}
use youpass_share_service.Share.Ports.{CreateInput}
use youpass_share_service.Share.Contract.{Entry, IsSound, Shares, Table, absent, missing, present}
use youpass_share_service.Share.Service.{Service, World, create, get_link, resolve}
use youpass_share_service.Share.Coherence.{Fits, IsCoherent, IsLawful, entry_of, table_of}
use youpass_share_service.Share.Create.{IsMadeOf, Made, create_answers}

Shares-made :
    (input : CreateInput) (l : Link)
    → IsMadeOf input l
    → Shares input.resource_type input.resource_id l
unfolding new_link
Shares-made input l (id, t, e) =
    subst (Shares input.resource_type input.resource_id) (sym e) (refl, refl, refl)

module _ {R C K V G : Type 0} (sv : Service R C K V G) (laws : IsLawful sv) where
  -- What a successful `Create` returns is the live link of the resource, in the rows.
  Made-at :
      (input : CreateInput) (t : Table) (l : Link) (b : Bool) (w' : World R C K V G)
      → Made sv laws input t (l, b) w'
      → (table_of sv laws w' l.code ≡ some l) × Shares input.resource_type input.resource_id l
  Made-at input t l b w' (inl (_, _, _, of, rows)) =
      (ap (λ x. x l.code) rows ∙ rw (bytes_eq_refl l.code), Shares-made input l of)
  Made-at input t l b w' (inr (_, at, shares, rows)) = (ap (λ x. x l.code) rows ∙ at, shares)

  only_one :
      (input : CreateInput) (l m : Link) (t : Table)
      → IsSound t
      → t l.code ≡ some l
      → Shares input.resource_type input.resource_id l
      → t m.code ≡ some m
      → Shares input.resource_type input.resource_id m
      → m ≡ l
  only_one input l m t s at sl am sm =
      let same : m.code ≡ l.code =
        s.unique m.code l.code m l am at (sm.0 ∙ sym sl.0, sm.1 ∙ sym sl.1, sm.2) sl.2 in
      eq_of_some-eq (sym am ∙ ap t same ∙ at)

  -- After a `Create` that succeeded, on ports that keep their laws and a sound repository, another
  -- for the same resource, with whatever owner and expiry, returns the same link with created =
  -- false if it succeeds, and changes no row, whether or not it succeeds.
  pub create_twice :
      (input : CreateInput) (again : CreateInput) (w w₁ : World R C K V G) (l : Link) (b : Bool)
      → laws.repo.Inv w.repo
      → create sv input w ≡ ret (l, b) w₁
      → again.resource_type ≡ input.resource_type
      → again.resource_id ≡ input.resource_id
      → Post
          (create sv again w₁)
          (λ r w₂. (r.0 ≡ l) × (r.1 ≡ false) × (table_of sv laws w₂ ≡ table_of sv laws w₁))
          (λ e w₂. table_of sv laws w₂ ≡ table_of sv laws w₁)
  create_twice input again w w₁ l b inv done same_type same_id =
      let (_, _, made, (inv₁, _)) = rw (done, Post) at (create_answers sv laws input w inv) in
      let (at, shares) = Made-at input (table_of sv laws w) l b w₁ made in
      let shares' : Shares again.resource_type again.resource_id l =
        (shares.0 ∙ sym same_type, shares.1 ∙ sym same_id, shares.2) in
      Post-mono _ _ _ _ (create sv again w₁) (create_answers sv laws again w₁ inv₁)
        (λ r w₂ (_, _, made', _). second again w₁ l inv₁ at shares' r w₂ made')
        (λ e w₂ (_, rows, _). rows)
    where
      second :
          (again : CreateInput) (w₁ : World R C K V G) (l : Link)
          → laws.repo.Inv w₁.repo
          → table_of sv laws w₁ l.code ≡ some l
          → Shares again.resource_type again.resource_id l
          → (r : Link × Bool) (w₂ : World R C K V G) → Made sv laws again (table_of sv laws w₁) r w₂
          → (r.0 ≡ l) × (r.1 ≡ false) × (table_of sv laws w₂ ≡ table_of sv laws w₁)
      second again w₁ l inv₁ at sh (m, c) w₂ (inl (_, _, unshared, _, _)) =
          absurd (unshared (l.code, (l, at, sh)))
      second again w₁ l inv₁ at sh (m, c) w₂ (inr (old, am, sm, rows)) = (
        only_one again l m (table_of sv laws w₁) (laws.repo.sound w₁.repo inv₁) at sh am sm,
        old,
        rows,
      )

  Fits-fresh : (x : Entry) (o p : Option Link) → Fits x o → o ≡ none → x ≢ missing → Fits x p
  Fits-fresh absent o p f e n = tt
  Fits-fresh missing o p f e n = absurd (n refl)
  Fits-fresh (present l) o p (m, at, _) e n = absurd (none≢some (sym e ∙ at))

  still-Fits :
      (input : CreateInput) (w w₁ : World R C K V G) (l : Link) (b : Bool)
      → IsCoherent sv laws w
      → (entry_of sv laws w l.code ≡ missing → b ≡ false)
      → Made sv laws input (table_of sv laws w) (l, b) w₁
      → (c : Bytes) → Fits (entry_of sv laws w c) (table_of sv laws w₁ c)
  still-Fits input w w₁ l b h known (inr (_, _, _, rows)) c =
      subst (λ t. Fits (entry_of sv laws w c) (t c)) (sym rows) (h.fits c)
  still-Fits input w w₁ l b h known (inl (new, free, _, _, rows)) c =
      subst (λ t. Fits (entry_of sv laws w c) (t c)) (sym rows)
        (elim (Bool-cases (bytes_eq l.code c)) [
          | inr off ↦ rw off (h.fits c)
          | inl here ↦
              let same = eq_of_bytes_eq l.code c here in
              rw here (
                Fits-fresh (entry_of sv laws w c) (table_of sv laws w c) (some l) (h.fits c)
                  (subst (λ x. table_of sv laws w x ≡ none) same free)
                  (λ m.
                    true≢false
                      (sym new ∙ known (subst (λ x. entry_of sv laws w x ≡ missing) (sym same) m))))
        ])

  -- On lawful ports and from a coherent state, a `Create` that succeeds leaves a coherent state,
  -- unless it made a new link under a code that the cache holds as missing.
  pub create-IsCoherent :
      (input : CreateInput) (w w₁ : World R C K V G) (l : Link) (b : Bool)
      → IsCoherent sv laws w
      → create sv input w ≡ ret (l, b) w₁
      → (entry_of sv laws w l.code ≡ missing → b ≡ false)
      → IsCoherent sv laws w₁
  create-IsCoherent input w w₁ l b h done known =
      let (_, _, made, (inv₁, cached)) =
        rw (done, Post) at (create_answers sv laws input w h.inv) in
      record {
        inv = inv₁;
        fits = λ c.
            subst (λ x. Fits (laws.cache.entry x c) (table_of sv laws w₁ c)) (sym cached)
              (still-Fits input w w₁ l b h known made c);
      }

  -- On lawful ports with a sound repository: if the cache answers that the code of the link that
  -- `Create` returned is missing, from a look-up made before, and the code is well-formed,
  -- `Resolve` answers `ErrLinkNotFound` for that link to every viewer, since `Create` does not
  -- invalidate the entry.
  pub create_hidden :
      (input : CreateInput) (v : Viewer) (w w₁ : World R C K V G) (l : Link) (b : Bool) (s : C)
      → laws.repo.Inv w.repo
      → create sv input w ≡ ret (l, b) w₁
      → sv.cache.get l.code w.cached ≡ throw link_not_found s
      → valid_code l.code ≡ true
      → resolve sv l.code v w₁ ≡ throw link_not_found (record w₁ { cached = s })
  unfolding resolve get_link
  create_hidden input v w w₁ l b s inv done known valid =
      let (_, _, _, (_, cached)) = rw (done, Post) at (create_answers sv laws input w inv) in
      let hit = subst (λ c. sv.cache.get l.code c ≡ throw link_not_found s) (sym cached) known in
      ground (arith, hit, valid, err_is_refl link_not_found)
