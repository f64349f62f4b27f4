-- ===== src/Share/Coherence.antt =====
-- usecase/share/service.go and the packages it takes: when its cache agrees with its repository.
use youpass_share_service.Base.{
  Bool-cases, Bytes, Option, bytes_eq, eq_of_bytes_eq, inl, inr, none, refl, some, subst, sym, ◌∙◌,
  ◌≡◌, ◌⊎◌, nat_eq, bytes_eq_instance,
}
use youpass_share_service.Domain.Error.{Error, link_not_found}
use youpass_share_service.Domain.Link.{Link}
use youpass_share_service.Outcome.{Act, Post, Post-ignore, Post-mono, ignore}
use youpass_share_service.Share.Contract.{
  Agrees, CacheLaws, Entry, IsFault, RepositoryLaws, Table, absent, missing, present, put,
}
use youpass_share_service.Share.Service.{Post-on_cache, Service, World, on_cache}

-- What the cache holds of a code is true of the repository's row.
abbrev pub Fits : Entry → Option Link → Type 0
Fits absent o = Unit
Fits missing o = o ≡ none
Fits (present l) o = (m : Link) × (o ≡ some m) × Agrees l m

-- No other call of singleflight is under way for the key: Do runs the function.
abbrev pub RunsAlone : {R C K V G : Type 0} → Service R C K V G → Type 0
RunsAlone {R} {C} {K} {V} {G} sv =
    (k : Bytes) (f : Act (World R C K V G) Link) (w : World R C K V G) → sv.flight k f w ≡ f w

-- The ports keep their promises.
pub record IsLawful {R C K V G : Type 0} (sv : Service R C K V G) : Type 1 where
  pub repo : RepositoryLaws sv.links
  pub cache : CacheLaws sv.cache
  pub alone : RunsAlone sv

module _ {R C K V G : Type 0} (sv : Service R C K V G) (laws : IsLawful sv) where
  abbrev pub table_of : World R C K V G → Table
  table_of w = laws.repo.table w.repo

  abbrev pub entry_of : World R C K V G → Bytes → Entry
  entry_of w = laws.cache.entry w.cached

  -- The repository's invariant holds, and the cache is right about every code.
  pub record IsCoherent (w : World R C K V G) : Type 0 where
    pub inv : laws.repo.Inv w.repo
    pub fits : (c : Bytes) → Fits (entry_of w c) (table_of w c)

  -- The links, the submissions, the counters and the clock are as before.
  pub record Kept (w w' : World R C K V G) : Type 0 where
    pub same_links : table_of w' ≡ table_of w
    pub same_content : w'.submissions ≡ w.submissions
    pub same_counters : w'.counters ≡ w.counters
    pub same_env : w'.env ≡ w.env

  Fits-put :
      (t : Bytes → Entry) (r : Table) (c : Bytes) (x : Entry)
      → ((d : Bytes) → Fits (t d) (r d))
      → Fits x (r c)
      → (d : Bytes) → Fits (put t c x d) (r d)
  Fits-put t r c x all new d = elim (Bool-cases (bytes_eq c d)) [
    | inl e ↦ rw e (subst (λ k. Fits x (r k)) (eq_of_bytes_eq c d e) new)
    | inr e ↦ rw e (all d)
  ]

  -- An entry that is true may be written, whether or not the write then fails.
  write-Fits :
      (w : World R C K V G) (c : Bytes) (x : Entry) (e' : Bytes → Entry)
      → IsCoherent w
      → Fits x (table_of w c)
      → (e' ≡ entry_of w) ⊎ (e' ≡ put (entry_of w) c x)
      → (d : Bytes) → Fits (e' d) (table_of w d)
  write-Fits w c x e' h new (inl same) d =
      subst (λ t. Fits (t d) (table_of w d)) (sym same) (h.fits d)
  write-Fits w c x e' h new (inr put') d =
      subst (λ t. Fits (t d) (table_of w d)) (sym put')
        (Fits-put (entry_of w) (table_of w) c x h.fits new d)

  abbrev pub Missed : Bytes → Error → World R C K V G → Type 0
  Missed code e w = ((e ≡ link_not_found) × (table_of w code ≡ none)) ⊎ IsFault e

  abbrev pub Found : Bytes → Link → World R C K V G → Type 0
  Found code l w = (m : Link) × (table_of w code ≡ some m) × Agrees l m

  -- The links, the submissions, the counters and the clock are as before, and all is coherent.
  abbrev pub Stays : World R C K V G → World R C K V G → Type 0
  Stays w w' = Kept w w' × IsCoherent w'

  pub Stays-trans : {a b c : World R C K V G} → Kept a b → Stays b c → Stays a c
  Stays-trans p (q, h) = (
    record {
      same_links = q.same_links ∙ p.same_links;
      same_content = q.same_content ∙ p.same_content;
      same_counters = q.same_counters ∙ p.same_counters;
      same_env = q.same_env ∙ p.same_env;
    },
    h,
  )

  -- The part of the world that is not the cache.
  recache :
      (w : World R C K V G) (c : Bytes) (x : Entry) (s : C)
      → IsCoherent w
      → Fits x (table_of w c)
      → (laws.cache.entry s ≡ entry_of w) ⊎ (laws.cache.entry s ≡ put (entry_of w) c x)
      → Stays w (record w { cached = s })
  recache w c x s h new e = (
    record { same_links = refl; same_content = refl; same_counters = refl; same_env = refl },
    record { inv = h.inv; fits = write-Fits w c x (laws.cache.entry s) h new e },
  )

  -- A logged write of a true entry keeps the world coherent, whether it succeeds or not.
  pub store :
      {A : Type 0} (f : Act C A) (w : World R C K V G) (c : Bytes) (x : Entry)
      → IsCoherent w
      → Fits x (table_of w c)
      → Post
          (f w.cached)
          (λ _ s. laws.cache.entry s ≡ put (entry_of w) c x)
          (λ _ s. (laws.cache.entry s ≡ entry_of w) ⊎ (laws.cache.entry s ≡ put (entry_of w) c x))
      → Post (ignore (on_cache f) w) (λ _ w'. Stays w w') (λ _ _. ⊥)
  store f w c x h new post = Post-ignore _ _ (on_cache f) w (
      Post-on_cache (λ _ w'. Stays w w') (λ _ w'. Stays w w') f w
        (Post-mono _ _ _ _ (f w.cached) post (λ _ s e. recache w c x s h new (inr e))
          (λ _ s e. recache w c x s h new e)))

  -- A call of the repository that leaves its rows alone.
  pub reread :
      (w : World R C K V G) (r : R)
      → IsCoherent w
      → laws.repo.Inv r
      → laws.repo.table r ≡ table_of w
      → Stays w (record w { repo = r })
  reread w r h inv same = (
    record { same_links = same; same_content = refl; same_counters = refl; same_env = refl },
    record { inv = inv; fits = λ c. subst (λ t. Fits (entry_of w c) (t c)) (sym same) (h.fits c) },
  )
