-- ===== src/Datastore/Migrations/Applying.antt =====
-- postgres.go, Migrate: what it relies on, and the transaction of one file.
use youpass_share_service.Base.{
  All, Bool, Bool-cases, Bytes, List, Option, [], ap, eq_of_some-eq, inl, inr, some, sym, true, ◌∙◌,
  ◌∷◌, ◌≡◌, ◌⊎◌,
}
use youpass_share_service.Outcome.{
  Act, Outcome, Post, Post-bind, Post-handle, Post-ignore, Post-mono, ignore, ret, throw, ◌>>◌,
}
use youpass_share_service.Datastore.Migrations.{
  Database, apply_body, or_rollback, place, sort_texts, text_leb,
}

-- The order of the files does not matter to what holds of each.
All-place : (P : Bytes → Type 0) (s : Bytes) (l : List Bytes) → P s → All P l → All P (place s l)
All-place P s [] p h = (p, tt)
All-place P s (t ∷ l) p h = elim (Bool-cases (text_leb s t)) [
  | inl q ↦ rw q (p, h)
  | inr q ↦ rw q (h.0, All-place P s l p h.1)
]

pub All-sort_texts : (P : Bytes → Type 0) (l : List Bytes) → All P l → All P (sort_texts l)
All-sort_texts P [] h = tt
All-sort_texts P (s ∷ l) h = All-place P s (sort_texts l) h.0 (All-sort_texts P l h.1)

place-All : (P : Bytes → Type 0) (s : Bytes) (l : List Bytes) → All P (place s l) → P s × All P l
place-All P s [] h = h
place-All P s (t ∷ l) h = elim (Bool-cases (text_leb s t)) [
  | inl q ↦ let h' = rw q at h in h'
  | inr q ↦ let h' = rw q at h in let (p, rest) = place-All P s l h'.1 in (p, (h'.0, rest))
]

pub sort_texts-All : (P : Bytes → Type 0) (l : List Bytes) → All P (sort_texts l) → All P l
sort_texts-All P [] h = tt
sort_texts-All P (s ∷ l) h =
    let (p, rest) = place-All P s (sort_texts l) h in (p, sort_texts-All P l rest)

-- What is committed: the versions in schema_migrations, and the scripts that were executed.
pub record Stored : Type 0 where
  pub versions : Bytes → Bool
  pub scripts : Bytes → Bool

-- A transaction that inserted version v and executed the scripts l is committed on s.
abbrev pub IsCommit : Stored → Option Bytes → List Bytes → Stored → Type 0
IsCommit s v l t =
    ((n : Bytes) → v ≡ some n → t.versions n ≡ true)
    × ((n : Bytes) → s.versions n ≡ true → t.versions n ≡ true)
    × ((n : Bytes) → t.versions n ≡ true → (s.versions n ≡ true) ⊎ (v ≡ some n))
    × All (λ b. t.scripts b ≡ true) l
    × ((b : Bytes) → s.scripts b ≡ true → t.scripts b ≡ true)

module _ {S : Type 0} (db : Database S) where
  -- The files and their contents, what is committed, the version that the open transaction has
  -- inserted, the scripts that it has executed, and all that were ever executed. A failed commit
  -- may have been done.
  pub record MigrationLaws : Type 0 where
    pub files : List Bytes
    pub contents : Bytes → Bytes
    pub stored : S → Stored
    pub staged : S → Option Bytes
    pub pending : S → List Bytes
    pub executed : S → List Bytes
    pub acquiring :
        (s : S)
        → Post
            (db.acquire s)
            (λ _ t. (stored t ≡ stored s) × (executed t ≡ executed s))
            (λ _ t. (stored t ≡ stored s) × (executed t ≡ executed s))
    pub locking :
        (s : S)
        → Post
            (db.lock s)
            (λ _ t. (stored t ≡ stored s) × (executed t ≡ executed s))
            (λ _ t. (stored t ≡ stored s) × (executed t ≡ executed s))
    pub creating :
        (s : S)
        → Post
            (db.create_table s)
            (λ _ t. (stored t ≡ stored s) × (executed t ≡ executed s))
            (λ _ t. (stored t ≡ stored s) × (executed t ≡ executed s))
    pub releasing :
        (s : S) → (stored (db.release s) ≡ stored s) × (executed (db.release s) ≡ executed s)
    pub unlocking :
        (s : S) → (stored (db.unlock s) ≡ stored s) × (executed (db.unlock s) ≡ executed s)
    pub globbing :
        (s : S)
        → Post
            (db.glob s)
            (λ l t. (l ≡ files) × (stored t ≡ stored s) × (executed t ≡ executed s))
            (λ _ t. (stored t ≡ stored s) × (executed t ≡ executed s))
    pub asking :
        (n : Bytes) (s : S)
        → Post
            (db.is_applied n s)
            (λ b t. (b ≡ (stored s).versions n) × (stored t ≡ stored s) × (executed t ≡ executed s))
            (λ _ t. (stored t ≡ stored s) × (executed t ≡ executed s))
    pub reading :
        (n : Bytes) (s : S)
        → Post
            (db.read_file n s)
            (λ b t. (b ≡ contents n) × (stored t ≡ stored s))
            (λ _ t. stored t ≡ stored s)
    pub beginning :
        (s : S) → Post (db.begin s) (λ _ t. stored t ≡ stored s) (λ _ t. stored t ≡ stored s)
    pub executing :
        (b : Bytes) (s : S)
        → Post
            (db.exec b s)
            (λ _ t. (stored t ≡ stored s) × (pending t ≡ b ∷ pending s))
            (λ _ t. stored t ≡ stored s)
    pub recording :
        (n : Bytes) (s : S)
        → Post
            (db.record_version n s)
            (λ _ t. (stored t ≡ stored s) × (staged t ≡ some n) × (pending t ≡ pending s))
            (λ _ t. stored t ≡ stored s)
    pub committing :
        (s : S)
        → Post
            (db.commit s)
            (λ _ t. IsCommit (stored s) (staged s) (pending s) (stored t))
            (λ _ t. (stored t ≡ stored s) ⊎ IsCommit (stored s) (staged s) (pending s) (stored t))
    pub rolling :
        (s : S) → Post (db.rollback s) (λ _ t. stored t ≡ stored s) (λ _ t. stored t ≡ stored s)

  module _ (laws : MigrationLaws) where
    abbrev pub Same : S → S → Type 0
    Same s t = (laws.stored t ≡ laws.stored s) × (laws.executed t ≡ laws.executed s)

    abbrev pub applied : S → Bytes → Bool
    applied s n = (laws.stored s).versions n

    -- The script of the file n was executed in a transaction that is committed.
    abbrev pub ran : S → Bytes → Bool
    ran s n = (laws.stored s).scripts (laws.contents n)

    -- The script of every version that is there has run.
    abbrev pub HasRun : S → Type 0
    HasRun s = (n : Bytes) → applied s n ≡ true → ran s n ≡ true

    -- No version is lost, and none is there without its script.
    abbrev pub Grows : S → S → Type 0
    Grows s t = ((m : Bytes) → applied s m ≡ true → applied t m ≡ true) × (HasRun s → HasRun t)

    pub same_Grows : (s t : S) → laws.stored t ≡ laws.stored s → Grows s t
    same_Grows s t e = (
      λ m h. ap (λ (f : Stored). f.versions m) e ∙ h,
      λ good n h.
          ap (λ (f : Stored). f.scripts (laws.contents n)) e
          ∙ good n (sym (ap (λ (f : Stored). f.versions n) e) ∙ h),
    )

    pub Grows-trans : (s t u : S) → Grows s t → Grows t u → Grows s u
    Grows-trans s t u (a, b) (c, d) = (λ m h. c m (a m h), λ good. d (b good))

    -- A commit of version n and its script is sound.
    commit_Grows :
        (n : Bytes) (l : List Bytes) (s t : S)
        → laws.staged s ≡ some n
        → laws.pending s ≡ laws.contents n ∷ l
        → IsCommit (laws.stored s) (laws.staged s) (laws.pending s) (laws.stored t)
        → (applied t n ≡ true) × Grows s t
    commit_Grows n l s t v p (now, kept, only, run, still) =
        (now n v, (kept, λ good m h. from good m (only m h)))
      where
        from :
            HasRun s
            → (m : Bytes) → (applied s m ≡ true) ⊎ (laws.staged s ≡ some m)
            → ran t m ≡ true
        from good m (inl h) = still (laws.contents m) (good m h)
        from good m (inr h) = ap (λ k. ran t k) (eq_of_some-eq (sym h ∙ v)) ∙ (rw p at run).0

    -- The part of the run that a file's transaction is.
    abbrev pub Applies : Bytes → S → Outcome S (Unit {0}) → Type 0
    Applies n s o = Post o (λ _ t. (applied t n ≡ true) × Grows s t) (λ _ t. Grows s t)

    or_rollback_lem :
        (P : Unit {0} → S → Type 0) (m : Act S (Unit {0})) (s u : S)
        → Post (m u) P (λ _ t. Grows s t)
        → Post (or_rollback db m u) P (λ _ t. Grows s t)
    or_rollback_lem P m s u h =
        Post-handle P (λ _ t. Grows s t) m ret (λ e. do ignore db.rollback; throw e) u
          (Post-mono _ _ _ _ (m u) h (λ a t p. p)
            (λ e t g.
              Post-bind P (λ _ v. Grows s v) (ignore db.rollback) (λ _. throw e) t
                (Post-ignore _ _ db.rollback t (
                  Post-mono _ _ _ _ (db.rollback t) (laws.rolling t)
                    (λ _ v q. Grows-trans s t v g (same_Grows t v q))
                    (λ _ v q. Grows-trans s t v g (same_Grows t v q))))))

    commit_lem :
        (n : Bytes) (l : List Bytes) (s v : S)
        → Grows s v
        → laws.staged v ≡ some n
        → laws.pending v ≡ laws.contents n ∷ l
        → Applies n s (db.commit v)
    commit_lem n l s v g st p =
        Post-mono _ _ _ _ (db.commit v) (laws.committing v)
          (λ _ w c. let (now, h) = commit_Grows n l v w st p c in (now, Grows-trans s v w g h))
          (λ _ w c. Grows-trans s v w g (failed w c))
      where
        failed :
            (w : S)
            → (laws.stored w ≡ laws.stored v)
              ⊎ IsCommit (laws.stored v) (laws.staged v) (laws.pending v) (laws.stored w)
            → Grows v w
        failed w (inl e) = same_Grows v w e
        failed w (inr c) = (commit_Grows n l v w st p c).1

    pub apply_body_lem : (n : Bytes) (s : S) → Applies n s (apply_body db n (laws.contents n) s)
    unfolding apply_body
    apply_body_lem n s =
        let body = laws.contents n in
        Post-bind _ _ db.begin _ s (
          Post-mono _ _ _ _ (db.begin s) (laws.beginning s)
            (λ _ t e. Post-bind _ _ (or_rollback db (db.exec body)) _ t (
              or_rollback_lem _ (db.exec body) s t (
                Post-mono _ _ _ _ (db.exec body t) (laws.executing body t)
                  (λ _ u (f, p). Post-bind _ _ (or_rollback db (db.record_version n)) _ u (
                    or_rollback_lem _ (db.record_version n) s u (
                      Post-mono _ _ _ _ (db.record_version n u) (laws.recording n u)
                        (λ _ v (g, st, q).
                          commit_lem n (laws.pending t) s v (same_Grows s v (g ∙ (f ∙ e))) st
                            (q ∙ p))
                        (λ _ v g. same_Grows s v (g ∙ (f ∙ e))))))
                  (λ _ u f. same_Grows s u (f ∙ e)))))
            (λ _ t e. same_Grows s t e))
