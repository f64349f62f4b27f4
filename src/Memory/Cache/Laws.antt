-- ===== src/Memory/Cache/Laws.antt =====
-- memstore.go: LinkCache keeps what usecase/share/ports.go promises of a LinkCache.
use youpass_share_service.Base.{
  Bool, Bool-cases, Bytes, Option, Option-cases, arith, erase, fun_ext, if◌then◌else◌, inl, inr,
  insert, lookup, lookup-erase, lookup-insert, none, refl, some, true, ◌≡◌, ◌⊎◌, nat_eq,
  bytes_eq_instance,
}
use youpass_share_service.Domain.Error.{cache_miss, link_not_found}
use youpass_share_service.Domain.Link.{Link}
use youpass_share_service.Outcome.{Post}
use youpass_share_service.Share.Contract.{
  Agrees, CacheLaws, Entry, IsFault, absent, missing, present, put,
}
use youpass_share_service.Memory.Cache.{
  Cache, get, holds, invalidate, memory_cache, set, set_not_found,
}

abbrev pub known : Option Bool → Option Link → Entry
known n i = if holds n then missing else (elim i [ none ↦ absent | some l ↦ present l ])

-- What the two maps say of a code together.
abbrev pub entry : Cache → Bytes → Entry
entry c code = known (lookup code c.negative) (lookup code c.items)

pub get_lem :
    (code : Bytes) (c : Cache)
    → Post
        (get code c)
        (λ l c'. (entry c code ≡ present l) × (entry c' ≡ entry c))
        (λ e c'.
          (((e ≡ link_not_found) × (entry c code ≡ missing))
            ⊎ (((e ≡ cache_miss) × (entry c code ≡ absent)) ⊎ IsFault e))
          × (entry c' ≡ entry c))
unfolding get
get_lem code c = elim (Bool-cases c.fail) [
  | inl down ↦ rw (down, get) (inr (inr tt), refl)
  | inr up ↦ elim (Bool-cases (holds (lookup code c.negative))) [
    | inl neg ↦ rw (up, neg, get) (inl (refl, refl), refl)
    | inr pos ↦ elim (Option-cases (lookup code c.items)) [
      | inl e ↦ rw (up, pos, e, get) (inr (inl (refl, refl)), refl)
      | inr (l, e) ↦ rw (up, pos, e, get) (refl, refl)
    ]
  ]
]

entry-set :
    (l : Link) (c : Cache) (d : Bytes)
    → known (lookup d (erase l.code c.negative)) (lookup d (insert l.code l c.items))
      ≡ put (entry c) l.code (present l) d
entry-set l c d =
    rw (lookup-erase l.code d c.negative, lookup-insert l.code d l c.items) (ground arith)

entry-set_not_found :
    (code : Bytes) (c : Cache) (d : Bytes)
    → known (lookup d (insert code true c.negative)) (lookup d c.items)
      ≡ put (entry c) code missing d
entry-set_not_found code c d = rw (lookup-insert code d true c.negative) (ground arith)

entry-invalidate :
    (code : Bytes) (c : Cache) (d : Bytes)
    → known (lookup d (erase code c.negative)) (lookup d (erase code c.items))
      ≡ put (entry c) code absent d
entry-invalidate code c d =
    rw (lookup-erase code d c.negative, lookup-erase code d c.items) (ground arith)

pub set_lem :
    (l : Link) (c : Cache)
    → (m : Link) × Agrees m l
      × Post
          (set l c)
          (λ _ c'. entry c' ≡ put (entry c) l.code (present m))
          (λ _ c'. (entry c' ≡ entry c) ⊎ (entry c' ≡ put (entry c) l.code (present m)))
unfolding set
set_lem l c = (
  l,
  (l.view_count, refl),
  elim (Bool-cases c.fail) [
    | inl down ↦ rw (down, set) (inl refl)
    | inr up ↦ rw (up, set) (fun_ext (entry-set l c))
  ],
)

pub set_not_found_lem :
    (code : Bytes) (c : Cache)
    → Post
        (set_not_found code c)
        (λ _ c'. entry c' ≡ put (entry c) code missing)
        (λ _ c'. (entry c' ≡ entry c) ⊎ (entry c' ≡ put (entry c) code missing))
unfolding set_not_found
set_not_found_lem code c = elim (Bool-cases c.fail) [
  | inl down ↦ rw (down, set_not_found) (inl refl)
  | inr up ↦ rw (up, set_not_found) (fun_ext (entry-set_not_found code c))
]

pub invalidate_lem :
    (code : Bytes) (c : Cache)
    → Post
        (invalidate code c)
        (λ _ c'. entry c' ≡ put (entry c) code absent)
        (λ _ c'. (entry c' ≡ entry c) ⊎ (entry c' ≡ put (entry c) code absent))
unfolding invalidate
invalidate_lem code c = fun_ext (entry-invalidate code c)

-- The in-memory cache behaves as the port's comments promise, also while it is unavailable.
abbrev pub memory_cache_lawful : CacheLaws memory_cache
memory_cache_lawful = record {
  entry = entry;
  get_lem = get_lem;
  set_lem = set_lem;
  set_not_found_lem = set_not_found_lem;
  invalidate_lem = invalidate_lem;
}
