-- ===== src/Redis/Snapshots/Keeping.antt =====
-- content_cache.go: what the cached reader keeps in Redis is what the reader behind it gives.
use youpass_share_service.Base.{
  All, Bool-cases, Bytes, Int64, Option, [], ap, codes, eq_of_bytes_eq, eq_of_some-eq, get_or, inl,
  inr, none, refl, some, subst, sym, tail, ◌++◌, ◌<◌, ◌==◌, ◌^◌, ◌∙◌, ◌∷◌, ◌≡◌, nat_eq,
  bytes_eq_instance,
}
use youpass_share_service.Base.Decimal.{
  IsSignOrDigit, colon-IsBreak, format_int, format_int-IsSignOrDigit, format_int_injective,
}
use youpass_share_service.Domain.Error.{Error}
use youpass_share_service.Domain.Link.{ResourceType, Snapshot}
use youpass_share_service.Outcome.{
  Act, Outcome, Post, Post-bind, Post-handle, Post-ignore, Post-mono, Post-move, Post-self, final,
  ignore, ret, throw,
}
use youpass_share_service.Share.Ports.{ContentReader}
use youpass_share_service.Redis.{RedisLaws, assign}
use youpass_share_service.Redis.Snapshots.{
  CachedReader, Reader, SnapshotCodec, load_snapshot, on_source, on_store, reader_snapshot,
  snapshot_key, snapshot_ttl,
}
use youpass_share_service.Redis.Snapshots.Answers.{IsFresh, reader_snapshot_lem}

-- No text of a number has a colon.
no_colon : (b x y : Bytes) → All IsSignOrDigit x → x ≡ b ++ (b':' ∷ y) → ⊥
no_colon [] [] y h e = cc e
no_colon [] (c ∷ x) y h e = colon-IsBreak c h.0 (ap (λ (l : Bytes). get_or l 0 0) e)
no_colon (d ∷ b) [] y h e = cc e
no_colon (d ∷ b) (c ∷ x) y h e = no_colon b x y h.1 (ap tail e)

-- Texts that are the same have the same last colon.
last_colon :
    (a b x y : Bytes)
    → All IsSignOrDigit x
    → All IsSignOrDigit y
    → a ++ (b':' ∷ x) ≡ b ++ (b':' ∷ y)
    → (a ≡ b) × (x ≡ y)
last_colon [] [] x y hx hy e = (refl, ap tail e)
last_colon [] (d ∷ b) x y hx hy e = absurd (no_colon b x y hx (ap tail e))
last_colon (c ∷ a) [] x y hx hy e = absurd (no_colon a y x hy (ap tail (sym e)))
last_colon (c ∷ a) (d ∷ b) x y hx hy e =
    let (p, q) = last_colon a b x y hx hy (ap tail e) in
    let first : c ≡ d = ap (λ (l : Bytes). get_or l 0 0) e in (cc, q)

drop_prefix : (p a b : Bytes) → p ++ a ≡ p ++ b → a ≡ b
drop_prefix [] a b e = e
drop_prefix (c ∷ p) a b e = drop_prefix p a b (ap tail e)

-- A key belongs to one submission.
snapshot_key_injective :
    (rt rt' : ResourceType) (id id' : Int64)
    → id < 2 ^ 64
    → id' < 2 ^ 64
    → snapshot_key rt id ≡ snapshot_key rt' id'
    → (rt ≡ rt') × (id ≡ id')
unfolding snapshot_key
snapshot_key_injective rt rt' id id' h h' e =
    let (p, q) =
      last_colon rt rt' (format_int id) (format_int id') (format_int-IsSignOrDigit id)
        (format_int-IsSignOrDigit id') (drop_prefix (codes "submission:snapshot:") _ _ e) in
    (p, format_int_injective id id' h h' q)

-- Both of two statements on an outcome.
Post-and :
    {S A : Type 0} (P P' : A → S → Type 0) (Q Q' : Error → S → Type 0) (o : Outcome S A)
    → Post o P Q
    → Post o P' Q'
    → Post o (λ a s. P a s × P' a s) (λ e s. Q e s × Q' e s)
Post-and P P' Q Q' (ret a s) h h' = (h, h')
Post-and P P' Q Q' (throw e s) h h' = (h, h')

-- The reader gives the snapshots of k as well at k'.
abbrev pub Keeps : {K : Type 0} → ContentReader K → K → K → Type 0
Keeps {K} next k k' =
    (rt : ResourceType) (id : Int64) (snap : Snapshot) (k₁ : K)
    → next.snapshot rt id k ≡ ret snap k₁
    → (k₂ : K) × (next.snapshot rt id k' ≡ ret snap k₂)

-- Reading a snapshot takes no snapshot away and changes none.
abbrev pub IsSteady : {K : Type 0} → ContentReader K → Type 0
IsSteady {K} next =
    (rt : ResourceType) (id : Int64) (k : K) → Keeps next k (final (next.snapshot rt id k))

-- What is read of a text that was written is the snapshot that was written.
abbrev pub ReadsBack : SnapshotCodec → Type 0
ReadsBack codec =
    (snap snap' : Snapshot) → codec.unmarshal (codec.marshal snap) ≡ some snap' → snap' ≡ snap

module _ {S K : Type 0} (c : CachedReader S K) (laws : RedisLaws c.redis)
    (alone : (k : Bytes) (f : Act (Reader S K) Snapshot) (r : Reader S K)
      → c.flight k f r ≡ f r) where
  -- Every snapshot in Redis is the one that the reader gives for the submission of its key.
  abbrev pub AllFresh : Reader S K → Type 0
  AllFresh r = (rt : ResourceType) (id : Int64) → id < 2 ^ 64 → IsFresh c laws alone rt id r

  same-AllFresh :
      (r : Reader S K) (s : S) (k : K)
      → laws.value s ≡ laws.value r.store
      → Keeps c.next r.source k
      → AllFresh r
      → AllFresh (record { store = s; source = k })
  same-AllFresh r s k same keeps fresh rt id h raw snap at read =
      let (k₁, e) =
        fresh rt id h raw snap
          (sym (ap (λ (t : Bytes → Option Bytes). t (snapshot_key rt id)) same) ∙ at) read in
      keeps rt id snap k₁ e

  pub written-AllFresh :
      (rt : ResourceType) (id : Int64) (snap : Snapshot) (r : Reader S K) (s : S) (k : K)
      → ReadsBack c.codec
      → id < 2 ^ 64
      → ((k₁ : K) × (c.next.snapshot rt id k ≡ ret snap k₁))
      → Keeps c.next r.source k
      → laws.value s
        ≡ assign (laws.value r.store) (snapshot_key rt id) (some (c.codec.marshal snap))
      → AllFresh r
      → AllFresh (record { store = s; source = k })
  written-AllFresh rt id snap r s k back h gives keeps now fresh rt' id' h' raw snap' at read =
      let here : laws.value s (snapshot_key rt' id')
          ≡ assign (laws.value r.store) (snapshot_key rt id) (some (c.codec.marshal snap))
              (snapshot_key rt' id') =
        ap (λ (t : Bytes → Option Bytes). t (snapshot_key rt' id')) now in
      elim (Bool-cases (snapshot_key rt id == snapshot_key rt' id')) [
        | inl q ↦
            let (p, p') =
              snapshot_key_injective rt rt' id id' h h'
                (eq_of_bytes_eq (snapshot_key rt id) (snapshot_key rt' id') q) in
            let text : c.codec.marshal snap ≡ raw = eq_of_some-eq (sym (here ∙ rw q refl) ∙ at) in
            let same : snap' ≡ snap = back snap snap' (rw text read) in rw (← p, ← p', same) gives
        | inr q ↦
            let (k₁, e) = fresh rt' id' h' raw snap' (sym (here ∙ rw q refl) ∙ at) read in
            keeps rt' id' snap' k₁ e
      ]

  module _ (back : ReadsBack c.codec) (steady : IsSteady c.next) (rt : ResourceType) (id : Int64)
      (h : id < 2 ^ 64) where
    kept : (k k' : K) (snap : Snapshot) → c.next.snapshot rt id k ≡ ret snap k' → Keeps c.next k k'
    kept k k' snap e =
        subst (λ (o : Outcome K Snapshot). Keeps c.next k (final o)) e (steady rt id k)

    load-AllFresh :
        (r : Reader S K)
        → AllFresh r
        → Post (load_snapshot c rt id r) (λ _ r'. AllFresh r') (λ _ r'. AllFresh r')
    unfolding load_snapshot
    load-AllFresh r fresh = Post-bind _ _ (on_source (c.next.snapshot rt id)) _ r (
        Post-move _ _ (c.next.snapshot rt id r.source) (λ k. record r { source = k })
          (Post-mono _ _ _ _ (c.next.snapshot rt id r.source)
            (Post-self (c.next.snapshot rt id r.source))
            (λ snap k e.
              let key = snapshot_key rt id in
              let set = c.redis.set key (c.codec.marshal snap) snapshot_ttl in
              let keeps = kept r.source k snap e in
              let wrote : (s : S)
                  → laws.value s ≡ assign (laws.value r.store) key (some (c.codec.marshal snap))
                  → AllFresh (record { store = s; source = k }) =
                λ s now.
                  written-AllFresh rt id snap r s k back h (keeps rt id snap k e) keeps now fresh in
              let r₁ = record r { source = k } in
              Post-bind _ _ (ignore (on_store set)) (λ _. ret snap) r₁
                (Post-ignore _ _ (on_store set) r₁ (
                  Post-move _ _ (set r.store) (λ s. record r₁ { store = s })
                    (Post-mono _ _ _ _ (set r.store)
                      (laws.written key (c.codec.marshal snap) snapshot_ttl r.store)
                      (λ _ s now. wrote s now)
                      (λ _ s which. elim which [
                        | inl same ↦ same-AllFresh r s k same keeps fresh
                        | inr now ↦ wrote s now
                      ])))))
            (λ x k e.
              same-AllFresh r r.store k refl
                (subst (λ (o : Outcome K Snapshot). Keeps c.next r.source (final o)) e
                  (steady rt id r.source))
                fresh)))

    through-AllFresh :
        (r : Reader S K) (s : S)
        → laws.value s ≡ laws.value r.store
        → AllFresh r
        → Post
            (c.flight (snapshot_key rt id) (load_snapshot c rt id) (record r { store = s }))
            (λ _ r'. AllFresh r')
            (λ _ r'. AllFresh r')
    through-AllFresh r s same fresh = rw alone (
        load-AllFresh (record r { store = s })
          (same-AllFresh r s r.source same (λ rt' id' snap k e. (k, e)) fresh))

    found-AllFresh :
        (r : Reader S K) (s : S) (o : Option Snapshot)
        → laws.value s ≡ laws.value r.store
        → AllFresh r
        → Post
            (elim o [
              | none ↦
                  c.flight (snapshot_key rt id) (load_snapshot c rt id) (record r { store = s })
              | some snap ↦ ret snap (record r { store = s })
            ])
            (λ _ r'. AllFresh r')
            (λ _ r'. AllFresh r')
    found-AllFresh r s none same fresh = through-AllFresh r s same fresh
    found-AllFresh r s (some snap) same fresh =
        same-AllFresh r s r.source same (λ rt' id' x k e. (k, e)) fresh

    kept-AllFresh :
        (r : Reader S K)
        → AllFresh r
        → Post (reader_snapshot c rt id r) (λ _ r'. AllFresh r') (λ _ r'. AllFresh r')
    unfolding reader_snapshot
    kept-AllFresh r fresh = Post-handle _ _ (on_store (c.redis.get (snapshot_key rt id))) _ _ r (
        Post-move _ _ (c.redis.get (snapshot_key rt id) r.store) (λ s. record r { store = s })
          (Post-mono _ _ _ _ (c.redis.get (snapshot_key rt id) r.store)
            (laws.read (snapshot_key rt id) r.store)
            (λ raw s (_, same). found-AllFresh r s (c.codec.unmarshal raw) same fresh)
            (λ _ s (_, same). through-AllFresh r s same fresh)))

    -- On a Redis as documented, with no other call of singleflight under way, with a codec that
    -- reads back the snapshot that it wrote if it reads anything, and with a reader in which
    -- reading a snapshot changes no other: if every readable value in Redis under the key of a
    -- submission is the snapshot that the reader gives for it, the cached reader's `Snapshot` has
    -- the reader's result or error, whatever Redis fails with, and leaves the same true of every
    -- key.
    pub reader_snapshot-AllFresh :
        (r : Reader S K)
        → AllFresh r
        → Post
            (reader_snapshot c rt id r)
            (λ snap r'. ((k : K) × (c.next.snapshot rt id r.source ≡ ret snap k)) × AllFresh r')
            (λ e r'. ((k : K) × (c.next.snapshot rt id r.source ≡ throw e k)) × AllFresh r')
    reader_snapshot-AllFresh r fresh =
        Post-and _ _ _ _ (reader_snapshot c rt id r)
          (reader_snapshot_lem c laws alone rt id r (fresh rt id h)) (kept-AllFresh r fresh)
