-- ===== src/Share/Contract.antt =====
-- What usecase/share/ports.go promises of each port, as laws over an abstract view of its state.
-- An operation may also fail with an error of its own (a timeout, a lost connection).
use youpass_share_service.Base.{
  Bytes, Int64, Option, if◌then◌else◌, none, some, ◌==◌, ◌≡◌, ◌≢◌, ◌⊎◌, nat_eq, bytes_eq_instance,
}
use youpass_share_service.Domain.Error.{
  Error, already_shared, cache_miss, duplicate_code, foreign, link_not_found, unavailable,
}
use youpass_share_service.Domain.Link.{Link, ResourceType, Status, Time}
use youpass_share_service.Outcome.{Post}
use youpass_share_service.Share.Ports.{LinkCache, LinkRepository}

-- An error that no rule of the program gives a meaning to.
abbrev pub IsFault : Error → Type 0
IsFault unavailable = Unit
IsFault (foreign n) = Unit
IsFault _ = ⊥

-- The links that were ever created, by code.
abbrev pub Table : Type 0
Table = Bytes → Option Link

-- The link is not deleted.
abbrev pub IsLive : Link → Type 0
IsLive l = l.deleted_at ≡ none

abbrev pub Shares : ResourceType → Int64 → Link → Type 0
Shares rt id l = (l.resource_type ≡ rt) × (l.resource_id ≡ id) × IsLive l

abbrev pub Owns : Int64 → Link → Type 0
Owns owner l = (l.owner_id ≡ owner) × IsLive l

-- The row of code c is of a link with P.
abbrev pub Holds : Table → Bytes → (Link → Type 0) → Type 0
Holds t c P = (l : Link) × (t c ≡ some l) × P l

abbrev pub write : Table → Bytes → Link → Table
write t c l d = if c == d then some l else t d

-- A link stands under its code, and a resource has at most one live link.
pub record IsSound (t : Table) : Type 0 where
  pub keyed : (c : Bytes) (l : Link) → t c ≡ some l → l.code ≡ c
  pub unique :
      (c d : Bytes) (l m : Link)
      → t c ≡ some l
      → t d ≡ some m
      → Shares m.resource_type m.resource_id l
      → IsLive m
      → c ≡ d

-- The error says that there is nothing that fits, or it is a fault.
abbrev pub Misses : Error → Error → Type 0 → Type 0
Misses sentinel e P = ((e ≡ sentinel) × (¬ P)) ⊎ IsFault e

pub record RepositoryLaws {R : Type 0} (repo : LinkRepository R) : Type 1 where
  pub Inv : R → Type 0
  pub table : R → Table
  pub sound : (s : R) → Inv s → IsSound (table s)
  pub find_by_code_lem :
      (c : Bytes) (s : R)
      → Inv s
      → Post
          (repo.find_by_code c s)
          (λ l s'. (table s c ≡ some l) × (table s' ≡ table s) × Inv s')
          (λ e s'.
            (((e ≡ link_not_found) × (table s c ≡ none)) ⊎ IsFault e)
            × (table s' ≡ table s)
            × Inv s')
  pub find_by_resource_lem :
      (rt : ResourceType) (id : Int64) (s : R)
      → Inv s
      → Post
          (repo.find_by_resource rt id s)
          (λ l s'. (table s l.code ≡ some l) × Shares rt id l × (table s' ≡ table s) × Inv s')
          (λ e s'.
            Misses link_not_found e ((c : Bytes) × Holds (table s) c (Shares rt id))
            × (table s' ≡ table s)
            × Inv s')
  pub find_owned_lem :
      (c : Bytes) (owner : Int64) (s : R)
      → Inv s
      → Post
          (repo.find_owned c owner s)
          (λ l s'. (table s c ≡ some l) × Owns owner l × (table s' ≡ table s) × Inv s')
          (λ e s'.
            Misses link_not_found e (Holds (table s) c (Owns owner))
            × (table s' ≡ table s)
            × Inv s')
  pub update_status_lem :
      (c : Bytes) (owner : Int64) (st : Status) (s : R)
      → Inv s
      → Post
          (repo.update_status c owner st s)
          (λ l s'.
            (Holds (table s) c (λ m. Owns owner m × (l ≡ record m { status = st })))
            × (table s' ≡ write (table s) c l)
            × Inv s')
          (λ e s'.
            Misses link_not_found e (Holds (table s) c (Owns owner))
            × (table s' ≡ table s)
            × Inv s')
  pub soft_delete_lem :
      (c : Bytes) (owner : Int64) (s : R)
      → Inv s
      → Post
          (repo.soft_delete c owner s)
          (λ _ s'.
            (t : Time) × (Holds (table s) c (λ m.
              Owns owner m × (table s' ≡ write (table s) c (record m { deleted_at = some t }))))
            × Inv s')
          (λ e s'.
            Misses link_not_found e (Holds (table s) c (Owns owner))
            × (table s' ≡ table s)
            × Inv s')
  pub insert_lem :
      (l : Link) (s : R)
      → IsLive l
      → Inv s
      → Post
          (repo.insert l s)
          (λ l' s'.
            (table s l.code ≡ none)
            × (¬ ((c : Bytes) × Holds (table s) c (Shares l.resource_type l.resource_id)))
            × ((id : Int64) × (t : Time) × (l' ≡ record l { id = id; created_at = t }))
            × (table s' ≡ write (table s) l.code l')
            × Inv s')
          (λ e s'.
            (((e ≡ duplicate_code) × (table s l.code ≢ none))
              ⊎ (((e ≡ already_shared)
                    × ((c : Bytes) × Holds (table s) c (Shares l.resource_type l.resource_id)))
                  ⊎ IsFault e))
            × (table s' ≡ table s)
            × Inv s')

-- What the cache knows of a code.
pub data Entry : Type 0 where
  absent : Entry
  missing : Entry
  present : Link → Entry

-- The same link, but for the counter of its views.
abbrev pub Agrees : Link → Link → Type 0
Agrees l m = (n : Int64) × (l ≡ record m { view_count = n })

abbrev pub put : (Bytes → Entry) → Bytes → Entry → Bytes → Entry
put t c x d = if c == d then x else t d

pub record CacheLaws {C : Type 0} (cache : LinkCache C) : Type 1 where
  pub entry : C → Bytes → Entry
  pub get_lem :
      (c : Bytes) (s : C)
      → Post
          (cache.get c s)
          (λ l s'. (entry s c ≡ present l) × (entry s' ≡ entry s))
          (λ e s'.
            (((e ≡ link_not_found) × (entry s c ≡ missing))
              ⊎ (((e ≡ cache_miss) × (entry s c ≡ absent)) ⊎ IsFault e))
            × (entry s' ≡ entry s))
  -- After an error a write may have been done or not.
  pub set_lem :
      (l : Link) (s : C)
      → (m : Link) × Agrees m l
        × Post
            (cache.set l s)
            (λ _ s'. entry s' ≡ put (entry s) l.code (present m))
            (λ _ s'. (entry s' ≡ entry s) ⊎ (entry s' ≡ put (entry s) l.code (present m)))
  pub set_not_found_lem :
      (c : Bytes) (s : C)
      → Post
          (cache.set_not_found c s)
          (λ _ s'. entry s' ≡ put (entry s) c missing)
          (λ _ s'. (entry s' ≡ entry s) ⊎ (entry s' ≡ put (entry s) c missing))
  pub invalidate_lem :
      (c : Bytes) (s : C)
      → Post
          (cache.invalidate c s)
          (λ _ s'. entry s' ≡ put (entry s) c absent)
          (λ _ s'. (entry s' ≡ entry s) ⊎ (entry s' ≡ put (entry s) c absent))
