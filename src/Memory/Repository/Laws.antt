-- ===== src/Memory/Repository/Laws.antt =====
-- memstore.go: LinkRepository keeps what usecase/share/ports.go promises of a LinkRepository.
use youpass_share_service.Base.{
  Bool-cases, Bytes, Dict, Int64, Option-cases, add64, arith, eq_of_some-eq, fun_ext, inl, inr,
  insert, lookup, lookup-insert, none, none≢some, refl, some, sym, true, ◌↔◌, ◌∙◌, ◌≡◌, ◌≢◌, ◌⊎◌,
  nat_eq, bytes_eq_instance,
}
use youpass_share_service.Domain.Error.{already_shared, duplicate_code, link_not_found}
use youpass_share_service.Domain.Link.{Link, ResourceType, Status, Time}
use youpass_share_service.Outcome.{Post}
use youpass_share_service.Share.Contract.{
  Holds, IsFault, IsLive, IsSound, Misses, Owns, RepositoryLaws, Shares, Table, write,
}
use youpass_share_service.Memory.Repository.Rows.{
  IsTidy, first_shared-none, first_shared-some, insert_new-IsTidy, insert_over-IsTidy, lookup-code,
  lookup_unique,
}
use youpass_share_service.Memory.Repository.{
  Repository, find_by_code, find_by_resource, find_owned, first_shared, insert_link, memory_links,
  owned, owns, soft_delete, update_status,
}

abbrev pub rows : Repository → Table
rows r c = lookup c r.links

abbrev pub HasTidyRows : Repository → Type 0
HasTidyRows r = IsTidy r.links

pub rows-IsSound : (r : Repository) → HasTidyRows r → IsSound (rows r)
rows-IsSound r t = record {
  keyed = λ c l e. lookup-code r.links c l t e;
  unique = λ c d l m e f sh live. lookup_unique r.links c d l m t e f sh live;
}

rows_write :
    (c : Bytes) (l : Link) (m : Dict Bytes Link)
    → ◌≡◌ {A = Table} (λ d. lookup d (insert c l m)) (write (λ d. lookup d m) c l)
rows_write c l m = fun_ext (λ d. lookup-insert c d l m)

owns_iff : (owner : Int64) (l : Link) → (owns owner l ≡ true) ↔ Owns owner l
owns_iff owner l = ground arith

-- `owned` finds the live link of the owner under the code, if there is one.
owned_cases :
    (c : Bytes) (owner : Int64) (r : Repository)
    → ((l : Link) × (owned c owner r ≡ some l) × (rows r c ≡ some l) × Owns owner l)
      ⊎ ((owned c owner r ≡ none) × (¬ Holds (rows r) c (Owns owner)))
unfolding owned
owned_cases c owner r = elim (Option-cases (lookup c r.links)) [
  | inl e ↦ inr (rw (e, owned), λ (l, f, _). none≢some (sym e ∙ f))
  | inr (l, e) ↦ elim (Bool-cases (owns owner l)) [
    | inl mine ↦ inl (l, rw (e, owned) (rw mine), e, (owns_iff owner l).0 mine)
    | inr other ↦ inr (
      rw (e, owned) (rw other),
      λ (m, f, o). ground (arith, owns_iff owner l, eq_of_some-eq (sym e ∙ f), o),
    )
  ]
]

pub find_by_code_lem :
    (c : Bytes) (s : Repository)
    → HasTidyRows s
    → Post
        (find_by_code c s)
        (λ l s'. (rows s c ≡ some l) × (rows s' ≡ rows s) × HasTidyRows s')
        (λ e s'.
          (((e ≡ link_not_found) × (rows s c ≡ none)) ⊎ IsFault e)
          × (rows s' ≡ rows s)
          × HasTidyRows s')
unfolding find_by_code
find_by_code_lem c s t = elim (Option-cases (lookup c s.links)) [
  | inl e ↦ rw (e, find_by_code) (inl (refl, refl), refl, t)
  | inr (l, e) ↦ rw (e, find_by_code) (refl, refl, t)
]

pub find_by_resource_lem :
    (rt : ResourceType) (id : Int64) (s : Repository)
    → HasTidyRows s
    → Post
        (find_by_resource rt id s)
        (λ l s'. (rows s l.code ≡ some l) × Shares rt id l × (rows s' ≡ rows s) × HasTidyRows s')
        (λ e s'.
          Misses link_not_found e ((c : Bytes) × Holds (rows s) c (Shares rt id))
          × (rows s' ≡ rows s)
          × HasTidyRows s')
unfolding find_by_resource
find_by_resource_lem rt id s t = elim (Option-cases (first_shared rt id s.links)) [
  | inl e ↦
      rw (e, find_by_resource)
        (inl (refl, λ (c, (l, at, sh)). first_shared-none rt id s.links c l e at sh), refl, t)
  | inr (l, e) ↦
      let (at, sh) = first_shared-some rt id s.links l t e in
      rw (e, find_by_resource) (at, sh, refl, t)
]

pub find_owned_lem :
    (c : Bytes) (owner : Int64) (s : Repository)
    → HasTidyRows s
    → Post
        (find_owned c owner s)
        (λ l s'. (rows s c ≡ some l) × Owns owner l × (rows s' ≡ rows s) × HasTidyRows s')
        (λ e s'.
          Misses link_not_found e (Holds (rows s) c (Owns owner))
          × (rows s' ≡ rows s)
          × HasTidyRows s')
unfolding find_owned
find_owned_lem c owner s t = elim (owned_cases c owner s) [
  | inl (l, e, at, o) ↦ rw (e, find_owned) (at, o, refl, t)
  | inr (e, n) ↦ rw (e, find_owned) (inl (refl, n), refl, t)
]

-- `UpdateStatus` on tidy rows sets the status of the row of the code, if the owner matches and the
-- link is not deleted, and nothing else; otherwise it answers `ErrLinkNotFound` and changes
-- nothing. The rows stay tidy.
pub update_status_lem :
    (c : Bytes) (owner : Int64) (st : Status) (s : Repository)
    → HasTidyRows s
    → Post
        (update_status c owner st s)
        (λ l s'.
          Holds (rows s) c (λ m. Owns owner m × (l ≡ record m { status = st }))
          × (rows s' ≡ write (rows s) c l)
          × HasTidyRows s')
        (λ e s'.
          Misses link_not_found e (Holds (rows s) c (Owns owner))
          × (rows s' ≡ rows s)
          × HasTidyRows s')
unfolding update_status
update_status_lem c owner st s t = elim (owned_cases c owner s) [
  | inl (l, e, at, o) ↦
      let l' = record l { status = st } in
      rw (e, update_status)
        (
          (l, at, (o, refl)),
          rows_write c l' s.links,
          insert_over-IsTidy s.links c l l' t at refl refl refl (λ h. h),
        )
  | inr (e, n) ↦ rw (e, update_status) (inl (refl, n), refl, t)
]

-- `SoftDelete` on tidy rows marks the row of the code deleted, if the owner matches and the link
-- is not deleted, and nothing else; otherwise it answers `ErrLinkNotFound` and changes nothing.
-- The rows stay tidy.
pub soft_delete_lem :
    (c : Bytes) (owner : Int64) (s : Repository)
    → HasTidyRows s
    → Post
        (soft_delete c owner s)
        (λ _ s'.
          (t : Time) × Holds
            (rows s)
            c
            (λ m. Owns owner m × (rows s' ≡ write (rows s) c (record m { deleted_at = some t })))
          × HasTidyRows s')
        (λ e s'.
          Misses link_not_found e (Holds (rows s) c (Owns owner))
          × (rows s' ≡ rows s)
          × HasTidyRows s')
unfolding soft_delete
soft_delete_lem c owner s t = elim (owned_cases c owner s) [
  | inl (l, e, at, o) ↦
      let l' = record l { deleted_at = some s.clock } in
      rw (e, soft_delete)
        (
          s.clock,
          (l, at, (o, rows_write c l' s.links)),
          insert_over-IsTidy s.links c l l' t at refl refl refl (λ h. cc),
        )
  | inr (e, n) ↦ rw (e, soft_delete) (inl (refl, n), refl, t)
]

-- `Insert` of a link that is not deleted, into tidy rows: it succeeds only if the code was never
-- used and the resource has no live link, and the row of the code is then the link with its ID and
-- time, and all else as before. `ErrDuplicateCode` means that the code is used, and
-- `ErrAlreadyShared` that the resource has a live link; an error changes no row. The rows stay
-- tidy.
pub insert_lem :
    (l : Link) (s : Repository)
    → IsLive l
    → HasTidyRows s
    → Post
        (insert_link l s)
        (λ l' s'.
          (rows s l.code ≡ none)
          × (¬ ((c : Bytes) × Holds (rows s) c (Shares l.resource_type l.resource_id)))
          × ((id : Int64) × (t : Time) × (l' ≡ record l { id = id; created_at = t }))
          × (rows s' ≡ write (rows s) l.code l')
          × HasTidyRows s')
        (λ e s'.
          (((e ≡ duplicate_code) × (rows s l.code ≢ none))
            ⊎ (((e ≡ already_shared)
                  × ((c : Bytes) × Holds (rows s) c (Shares l.resource_type l.resource_id)))
                ⊎ IsFault e))
          × (rows s' ≡ rows s)
          × HasTidyRows s')
unfolding insert_link
insert_lem l s lv t = elim (Option-cases (lookup l.code s.links)) [
  | inr (x, e) ↦ rw (e, insert_link) (inl (refl, λ n. none≢some (sym n)), refl, t)
  | inl e ↦ elim (Option-cases (first_shared l.resource_type l.resource_id s.links)) [
    | inr (x, f) ↦
        let (at, sh) = first_shared-some l.resource_type l.resource_id s.links x t f in
        rw (e, f, insert_link) (inr (inl (refl, (x.code, (x, at, sh)))), refl, t)
    | inl f ↦
        let id = add64 s.next_id 1 in
        let l' = record l { id = id; created_at = s.clock } in
        rw (e, f, insert_link)
          (
            refl,
            λ (c, (x, at, sh)). first_shared-none l.resource_type l.resource_id s.links c x f at sh,
            (id, s.clock, refl),
            rows_write l.code l' s.links,
            insert_new-IsTidy s.links l' t e f,
          )
  ]
]

-- Every method of the in-memory repository behaves as the port's comments promise, and keeps its
-- invariant: codes are never reused, and a resource has at most one live link.
abbrev pub memory_links_lawful : RepositoryLaws memory_links
memory_links_lawful = record {
  Inv = HasTidyRows;
  table = rows;
  sound = rows-IsSound;
  find_by_code_lem = find_by_code_lem;
  find_by_resource_lem = find_by_resource_lem;
  find_owned_lem = find_owned_lem;
  update_status_lem = update_status_lem;
  soft_delete_lem = soft_delete_lem;
  insert_lem = insert_lem;
}
