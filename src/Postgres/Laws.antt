-- ===== src/Postgres/Laws.antt =====
-- link_repository.go on a database that runs its statements as documented: it keeps what
-- usecase/share/ports.go promises of a LinkRepository.
use youpass_share_service.Base.{
  Bool, Bool-cases, Bytes, Int64, List, arith, bytes_eq_iff, false, inl, inr, refl, some, subst,
  sym, true, true≢false, ◌==◌, ◌↔◌, ◌∙◌, ◌∷◌, ◌≡◌, ◌≢◌, ◌⊎◌, nat_eq, bytes_eq_instance,
}
use youpass_share_service.Domain.Error.{Error, eq_of_err_is, err_is, err_is_refl, link_not_found}
use youpass_share_service.Domain.Link.{Link, ResourceType, Status, Time}
use youpass_share_service.Outcome.{Outcome, Post, ret, throw}
use youpass_share_service.Share.Contract.{IsFault, Misses, Owns, Shares}
use youpass_share_service.Postgres.{Statements, active_resource, other, scan, unique_violation}
use youpass_share_service.Postgres.Rows.{Among, IsKeyed, change, matching, owned_row, shares_row}

abbrev pub Row : List Link → (Link → Bool) → Link → Type 0
Row ls p l = Among l ls × (p l ≡ true)

-- pgx.ErrNoRows where no row is taken, and else another error.
abbrev pub NoRow : Error → List Link → (Link → Bool) → Error → Type 0
NoRow no_rows ls p e = ((e ≡ no_rows) × (¬ ((l : Link) × Row ls p l))) ⊎ (IsFault e × (e ≢ no_rows))

-- SELECT ... WHERE
abbrev pub IsSelect :
    {S : Type 0} → Error → (S → List Link) → (Link → Bool) → S → Outcome S Link → Type 0
IsSelect no_rows rows p s o =
    Post o (λ l s'. Row (rows s) p l × (rows s' ≡ rows s))
      (λ e s'. NoRow no_rows (rows s) p e × (rows s' ≡ rows s))

abbrev pub new_row : Link → Int64 → Time → Link
new_row l id at = record l { id = id; created_at = at }

-- What PostgreSQL documents of the statements: its unique indexes hold, a statement that fails
-- changes nothing, and UPDATE changes the rows that its clause takes. Times are rows' times as they
-- are given, and IDs come from the sequence.
pub record StatementLaws {S : Type 0} (db : Statements S) : Type 1 where
  pub rows : S → List Link
  pub keyed : (s : S) → IsKeyed (rows s)
  pub code_selected :
      (c : Bytes) (s : S) → IsSelect db.no_rows rows (λ l. l.code == c) s (db.select_code c s)
  pub resource_selected :
      (rt : ResourceType) (id : Int64) (s : S)
      → IsSelect db.no_rows rows (shares_row rt id) s (db.select_resource rt id s)
  pub owned_selected :
      (c : Bytes) (owner : Int64) (s : S)
      → IsSelect db.no_rows rows (owned_row c owner) s (db.select_owned c owner s)
  pub status_updated :
      (c : Bytes) (owner : Int64) (st : Status) (s : S)
      → Post
          (db.update_status c owner st s)
          (λ l s'.
            (m : Link) × Row (rows s) (owned_row c owner) m
            × (l ≡ record m { status = st })
            × (rows s' ≡ change (owned_row c owner) (λ x. record x { status = st }) (rows s)))
          (λ e s'. NoRow db.no_rows (rows s) (owned_row c owner) e × (rows s' ≡ rows s))
  pub deleted_marked :
      (c : Bytes) (owner : Int64) (s : S)
      → Post
          (db.mark_deleted c owner s)
          (λ n s'.
            (t : Time) × (n ≡ matching (owned_row c owner) (rows s))
            × (rows s'
                ≡ change (owned_row c owner) (λ x. record x { deleted_at = some t }) (rows s)))
          (λ e s'. IsFault e × (rows s' ≡ rows s))
  pub inserted :
      (l : Link) (s : S) (id : Int64) (at : Time)
      → (db.insert l s).0 ≡ inr (id, at)
      → rows (db.insert l s).1 ≡ new_row l id at ∷ rows s
  pub resource_refused :
      (l : Link) (s : S)
      → (db.insert l s).0 ≡ inl (unique_violation active_resource)
      → ((m : Link) × Row (rows s) (shares_row l.resource_type l.resource_id) m)
        × (rows (db.insert l s).1 ≡ rows s)
  pub code_refused :
      (l : Link) (s : S) (name : Bytes)
      → (db.insert l s).0 ≡ inl (unique_violation name)
      → (name == active_resource) ≡ false
      → ((m : Link) × Row (rows s) (λ x. x.code == l.code) m) × (rows (db.insert l s).1 ≡ rows s)
  pub failed :
      (l : Link) (s : S) (e : Error)
      → (db.insert l s).0 ≡ inl (other e)
      → IsFault e × (rows (db.insert l s).1 ≡ rows s)

-- A row that is not there is the error of the domain.
pub scan_lem :
    {S : Type 0} (no_rows sentinel : Error) (Q : Type 0) (P : Link → S → Type 0) (X : S → Type 0)
    (o : Outcome S Link)
    → Post o P (λ e s. (((e ≡ no_rows) × (¬ Q)) ⊎ (IsFault e × (e ≢ no_rows))) × X s)
    → Post (scan no_rows sentinel o) P (λ e s. Misses sentinel e Q × X s)
scan_lem no_rows sentinel Q P X (ret l s) h = h
scan_lem no_rows sentinel Q P X (throw e s) (h, x) = elim (Bool-cases (err_is e no_rows)) [
  | inl q ↦ rw (q) (elim h [
    | inl (same, none') ↦ (inl (refl, none'), x)
    | inr (f, n) ↦ absurd (n (eq_of_err_is e no_rows q))
  ])
  | inr q ↦ rw (q) (elim h [
    | inl (same, none') ↦
        absurd (true≢false (sym (subst (λ y. err_is e y ≡ true) same (err_is_refl e)) ∙ q))
    | inr (f, n) ↦ (inr f, x)
  ])
]

pub owned_row_iff :
    (c : Bytes) (owner : Int64) (l : Link)
    → (owned_row c owner l ≡ true) ↔ ((l.code ≡ c) × Owns owner l)
owned_row_iff c owner l = ground (arith, bytes_eq_iff l.code c)

pub shares_row_iff :
    (rt : ResourceType) (id : Int64) (l : Link) → (shares_row rt id l ≡ true) ↔ Shares rt id l
shares_row_iff rt id l = ground (arith, bytes_eq_iff l.resource_type rt)

pub select_lem :
    {S : Type 0} (no_rows : Error) (rows : S → List Link) (p : Link → Bool) (s : S)
    (o : Outcome S Link)
    → IsSelect no_rows rows p s o
    → Post
        (scan no_rows link_not_found o)
        (λ l s'. Row (rows s) p l × (rows s' ≡ rows s))
        (λ e s'. Misses link_not_found e ((l : Link) × Row (rows s) p l) × (rows s' ≡ rows s))
select_lem no_rows rows p s o h =
    scan_lem no_rows link_not_found ((l : Link) × Row (rows s) p l)
      (λ l s'. Row (rows s) p l × (rows s' ≡ rows s)) (λ s'. rows s' ≡ rows s) o h
