-- ===== src/Redis/Snapshots/Answers.antt =====
-- content_cache.go and submission/service.go: the cached reader answers as the reader does.
use youpass_share_service.Base.{
  Bytes, Int64, Option, ap, bytes_eq_refl, none, none≢some, refl, some, sym, ◌∙◌, ◌≡◌, nat_eq,
  bytes_eq_instance,
}
use youpass_share_service.Domain.Error.{Error, submission_not_found}
use youpass_share_service.Domain.Link.{ResourceType, Snapshot}
use youpass_share_service.Outcome.{
  Act, Outcome, Post, Post-always, Post-bind, Post-handle, Post-ignore, Post-mono, Post-move,
  Post-self, ignore, ret, throw,
}
use youpass_share_service.Share.Ports.{ContentReader}
use youpass_share_service.Redis.{RedisLaws}
use youpass_share_service.Redis.Snapshots.{
  CachedReader, Reader, SubmissionRepository, delete_submission, drop_snapshot, load_snapshot,
  on_source, on_store, reader_snapshot, snapshot_key, snapshot_ttl,
}

-- A submission that is deleted has no snapshot.
abbrev pub DeletesForGood : {K : Type 0} → SubmissionRepository K → ContentReader K → Type 0
DeletesForGood {K} repo next =
    (user id : Int64) (rt : ResourceType) (k k' : K)
    → repo.soft_delete user id k ≡ ret rt k'
    → (k'' : K) × (next.snapshot rt id k' ≡ throw submission_not_found k'')

module _ {S K : Type 0} (c : CachedReader S K) (laws : RedisLaws c.redis)
    (alone : (k : Bytes) (f : Act (Reader S K) Snapshot) (r : Reader S K)
      → c.flight k f r ≡ f r) where
  -- A snapshot in Redis is the one that the reader gives.
  abbrev pub IsFresh : ResourceType → Int64 → Reader S K → Type 0
  IsFresh rt id r =
      (raw : Bytes) (snap : Snapshot)
      → laws.value r.store (snapshot_key rt id) ≡ some raw
      → c.codec.unmarshal raw ≡ some snap
      → (k : K) × (c.next.snapshot rt id r.source ≡ ret snap k)

  -- The outcome is that of the reader, but for the state.
  abbrev pub Answers : ResourceType → Int64 → K → Outcome (Reader S K) Snapshot → Type 0
  Answers rt id source o =
      Post o (λ snap _. (k : K) × (c.next.snapshot rt id source ≡ ret snap k))
        (λ e _. (k : K) × (c.next.snapshot rt id source ≡ throw e k))

  load_snapshot_lem :
      (rt : ResourceType) (id : Int64) (r : Reader S K)
      → Answers rt id r.source (load_snapshot c rt id r)
  unfolding load_snapshot
  load_snapshot_lem rt id r = Post-bind _ _ (on_source (c.next.snapshot rt id)) _ r (
      Post-move _ _ (c.next.snapshot rt id r.source) (λ k. record r { source = k })
        (Post-mono _ _ _ _ (c.next.snapshot rt id r.source)
          (Post-self (c.next.snapshot rt id r.source))
          (λ snap k e.
            let write =
              on_store (c.redis.set (snapshot_key rt id) (c.codec.marshal snap) snapshot_ttl) in
            let r₁ = record r { source = k } in
            Post-bind _ _ (ignore write) (λ _. ret snap) r₁
              (Post-ignore _ _ write r₁ (Post-always _ (write r₁) (k, e))))
          (λ x k e. (k, e))))

  through_lem :
      (rt : ResourceType) (id : Int64) (r : Reader S K) (s : S)
      → Answers rt id r.source
          (c.flight (snapshot_key rt id) (load_snapshot c rt id) (record r { store = s }))
  through_lem rt id r s = rw alone (load_snapshot_lem rt id (record r { store = s }))

  found :
      (rt : ResourceType) (id : Int64) (r : Reader S K) (s : S) (raw : Bytes) (o : Option Snapshot)
      → IsFresh rt id r
      → laws.value r.store (snapshot_key rt id) ≡ some raw
      → c.codec.unmarshal raw ≡ o
      → Answers rt id r.source (elim o [
        | none ↦ c.flight (snapshot_key rt id) (load_snapshot c rt id) (record r { store = s })
        | some snap ↦ ret snap (record r { store = s })
      ])
  found rt id r s raw none fresh at e = through_lem rt id r s
  found rt id r s raw (some snap) fresh at e = fresh raw snap at e

  -- On a Redis as documented, with no other call of singleflight under way, and if a readable
  -- value in Redis is the snapshot that the reader behind gives: the cached reader's `Snapshot`
  -- has the reader's result or error, whatever else Redis holds or fails with.
  pub reader_snapshot_lem :
      (rt : ResourceType) (id : Int64) (r : Reader S K)
      → IsFresh rt id r
      → Answers rt id r.source (reader_snapshot c rt id r)
  unfolding reader_snapshot
  reader_snapshot_lem rt id r fresh =
      Post-handle _ _ (on_store (c.redis.get (snapshot_key rt id))) _ _ r (
        Post-move _ _ (c.redis.get (snapshot_key rt id) r.store) (λ s. record r { store = s })
          (Post-mono _ _ _ _ (c.redis.get (snapshot_key rt id) r.store)
            (laws.read (snapshot_key rt id) r.store)
            (λ raw s (at, _). found rt id r s raw (c.codec.unmarshal raw) fresh at refl)
            (λ _ s _. through_lem rt id r s)))

  -- What a delete that succeeds leaves.
  dropped :
      (repo : SubmissionRepository K) (user id : Int64) (r : Reader S K)
      → Post
          (delete_submission c repo user id r)
          (λ _ r₁.
            (rt : ResourceType) × (repo.soft_delete user id r.source ≡ ret rt r₁.source)
            × (laws.value r₁.store (snapshot_key rt id) ≡ none))
          (λ _ _. Unit {0})
  unfolding delete_submission drop_snapshot
  dropped repo user id r =
      Post-bind _ _ (on_source (repo.soft_delete user id)) (λ rt. drop_snapshot c rt id) r
        (Post-move _ _ (repo.soft_delete user id r.source) (λ k. record r { source = k })
          (Post-mono _ _ _ _ (repo.soft_delete user id r.source)
            (Post-self (repo.soft_delete user id r.source))
            (λ rt k e.
              let key = snapshot_key rt id in
              Post-move _ _ (c.redis.del key r.store) (λ s. record r { source = k; store = s })
                (Post-mono _ _ _ _ (c.redis.del key r.store) (laws.deleted key r.store)
                  (λ _ s away. (
                    rt,
                    e,
                    ap (λ (t : Bytes → Option Bytes). t key) away ∙ rw (bytes_eq_refl key) refl,
                  ))
                  (λ _ _ _. tt)))
            (λ _ _ _. tt)))

  -- On a Redis as documented, with no other call of singleflight under way, and if a deleted
  -- submission has no snapshot in the reader behind: once `Delete` of a submission has succeeded,
  -- the cached reader's `Snapshot` of it, for the type that the repository returned, fails with
  -- ErrSubmissionNotFound.
  pub delete_submission_lem :
      (repo : SubmissionRepository K) (user id : Int64) (r r₁ : Reader S K)
      → DeletesForGood repo c.next
      → delete_submission c repo user id r ≡ ret tt r₁
      → (rt : ResourceType) × (k : K) × (repo.soft_delete user id r.source ≡ ret rt k)
        × Post (reader_snapshot c rt id r₁) (λ _ _. ⊥) (λ e _. e ≡ submission_not_found)
  delete_submission_lem repo user id r r₁ gone done =
      let (rt, deleted, away) = rw (done, Post) at (dropped repo user id r) in
      let (k, missing_now) = gone user id rt r.source r₁.source deleted in
      (
        rt,
        r₁.source,
        deleted,
        Post-mono _ _ _ _ (reader_snapshot c rt id r₁)
            (reader_snapshot_lem rt id r₁ (λ raw snap at _. absurd (none≢some (sym away ∙ at))))
            (λ snap _ (k', e). cc (sym missing_now ∙ e))
            (λ e _ (k', e'). same_error (sym e' ∙ missing_now)),
      )
    where
      same_error :
          {x y : Error} {k k' : K} → ◌≡◌ {A = Outcome K Snapshot} (throw x k) (throw y k') → x ≡ y
      same_error p = cc
