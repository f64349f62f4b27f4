-- ===== src/Redis/ViewCounter/Rounds.antt =====
-- view_counter.go, flush: a round in which no command fails.
use youpass_share_service.Base.{
  All, All-insert, Bool-cases, Bytes, Dict, Int64, List, Option, Option-cases, [], add64, ap,
  bytes_eq, if◌then◌else◌, inl, inr, length, ltb, none, none≢some, refl, some, sym, total, true,
  ◌<◌, ◌^◌, ◌∙◌, ◌∷◌, ◌≡◌, ◌≢◌, ◌⊎◌, nat_eq, bytes_eq_instance,
}
use youpass_share_service.Base.Decimal.{format_int}
use youpass_share_service.Base.Parse.{parse_int, parse_int-format_int}
use youpass_share_service.Domain.Error.{Error, eq_of_err_is, err_is}
use youpass_share_service.Outcome.{Act, Outcome, Outcome-cases, Post, Post-by, final, ret, throw}
use youpass_share_service.Redis.{assign}
use youpass_share_service.Redis.ViewCounter.{
  Counters, Flow, Flushed, aborted, complete, deltas_of, dirty_key, flush_batch, flush_ids,
  int64_of, mark_again, restore, retries_of, store_batch, sum_of, take_counts, views_key,
}
use youpass_share_service.Redis.ViewCounter.Taking.{
  IsHeard, take_counts_rule, take_ret, take_skip, take_throw, taken_heard,
}
use youpass_share_service.Redis.ViewCounter.Flushing.{FlowLaws, IsIn}
use youpass_share_service.Redis.ViewCounter.Restoring.{
  IsGone, counted, now_unset, same-IsGone, unset,
}

module _ {S D : Type 0} {redis : Counters S} {add_views : Dict Int64 Int64 → Act D (Unit {0})}
    (laws : FlowLaws redis add_views) where
  abbrev pub HasNumbers : S → Type 0
  HasNumbers s =
      (i : Int64) (v : Bytes)
      → laws.take.value s (views_key i) ≡ some v
      → (n : Int64) × (parse_int v ≡ some n)

  -- A link with views in Redis is in the dirty set.
  abbrev pub IsMarked : S → Type 0
  IsMarked s =
      (i : Int64) → i < 2 ^ 64 → (counted laws s i ≡ 0) ⊎ IsIn (format_int i) (laws.members s)

  -- No command fails: the only error is redis.Nil, for what is not there.
  pub record IsCalm : Type 0 where
    pub replies :
        (k : Bytes) (s : S)
        → Post
            (redis.get_del k s)
            (λ _ _. Unit)
            (λ e _. (err_is e redis.nil_error ≡ true) × (laws.take.value s k ≡ none))
    pub pops :
        (s : S)
        → Post
            (redis.s_pop dirty_key flush_batch s)
            (λ _ _. Unit)
            (λ e _. (err_is e redis.nil_error ≡ true) × (laws.members s ≡ []))
    pub stores :
        (deltas : Dict Int64 Int64) (d : D) → Post (add_views deltas d) (λ _ _. Unit) (λ _ _. ⊥)

  module _ (calm : IsCalm) where
    abbrev pub IsClean : Error ⊎ Int64 → Type 0
    IsClean (inl e) = err_is e redis.nil_error ≡ true
    IsClean (inr n) = Unit

    abbrev pub AreClean : Dict Int64 (Error ⊎ Int64) → S → Type 0
    AreClean replies s = All (λ d. IsClean d.1) replies × HasNumbers s

    retries_of_clean :
        (replies : Dict Int64 (Error ⊎ Int64))
        → All (λ d. IsClean d.1) replies
        → retries_of redis replies ≡ []
    unfolding retries_of
    retries_of_clean [] h = refl
    retries_of_clean ((i, inr n) ∷ rest) h = retries_of_clean rest h.1
    retries_of_clean ((i, inl e) ∷ rest) h = rw h.0 (retries_of_clean rest h.1)

    heard_by :
        (P : Bytes → S → Type 0) (k : Bytes) (s : S) (o : Outcome S Bytes)
        → Post o P (λ e s'.
          (laws.take.value s' ≡ laws.take.value s)
          ⊎ ((e ≢ redis.nil_error) × (laws.take.value s' ≡ assign (laws.take.value s) k none)))
        → Post o
            (λ _ _. Unit)
            (λ e _. (err_is e redis.nil_error ≡ true) × (laws.take.value s k ≡ none))
        → Post o (λ _ _. Unit {0}) (λ e s'. laws.take.value s' ≡ laws.take.value s)
    heard_by P k s (ret v s') h nil = tt
    heard_by P k s (throw e s') (inl same) nil = same
    heard_by P k s (throw e s') (inr (other, _)) (nil, _) =
        absurd (other (eq_of_err_is e redis.nil_error nil))

    -- Where no command fails no reply is lost.
    pub calm-IsHeard : IsHeard redis laws.take
    calm-IsHeard k s = heard_by _ k s (redis.get_del k s) (laws.take.taken k s) (calm.replies k s)

    -- What GETDEL does to the counter of link i.
    abbrev Away : Int64 → S → S → Type 0
    Away i s s' = laws.take.value s' ≡ assign (laws.take.value s) (views_key i) none

    got_from :
        (i : Int64) (s : S) (v : Bytes) (s' : S)
        → redis.get_del (views_key i) s ≡ ret v s'
        → (laws.take.value s (views_key i) ≡ some v) × Away i s s'
    got_from i s v s' g =
        Post-by (λ a u. (laws.take.value s (views_key i) ≡ some a) × Away i s u)
          (λ x u. laws.take.value u ≡ laws.take.value s) (ret v s') (redis.get_del (views_key i) s)
          (sym g) (taken_heard redis laws.take calm-IsHeard (views_key i) s)

    failed_from :
        (i : Int64) (s : S) (x : Error) (s' : S)
        → redis.get_del (views_key i) s ≡ throw x s'
        → (laws.take.value s' ≡ laws.take.value s)
          × (err_is x redis.nil_error ≡ true)
          × (laws.take.value s (views_key i) ≡ none)
    failed_from i s x s' g =
        let (nil, absent) =
          Post-by (λ _ _. Unit)
            (λ x u. (err_is x redis.nil_error ≡ true) × (laws.take.value s (views_key i) ≡ none))
            (throw x s') (redis.get_del (views_key i) s) (sym g) (calm.replies (views_key i) s) in
        (
          Post-by (λ a u. (laws.take.value s (views_key i) ≡ some a) × Away i s u)
              (λ x u. laws.take.value u ≡ laws.take.value s) (throw x s')
              (redis.get_del (views_key i) s) (sym g)
              (taken_heard redis laws.take calm-IsHeard (views_key i) s),
          nil,
          absent,
        )

    less_numbers : (i : Int64) (s s' : S) → Away i s s' → HasNumbers s → HasNumbers s'
    less_numbers i s s' away h j v e = elim (Bool-cases (bytes_eq (views_key i) (views_key j))) [
      | inl q ↦ absurd (none≢some (sym (at_j ∙ rw q refl) ∙ e))
      | inr q ↦ h j v (sym (at_j ∙ rw q refl) ∙ e)
    ]
      where
        at_j :
            laws.take.value s' (views_key j)
            ≡ assign (laws.take.value s) (views_key i) none (views_key j)
        at_j = ap (λ (t : Bytes → Option Bytes). t (views_key j)) away

    IsClean-number :
        (bad : Error) (v : Bytes) (n : Int64) → parse_int v ≡ some n → IsClean (int64_of bad v)
    IsClean-number bad v n e = rw (e, int64_of) tt

    pub take_counts-AreClean :
        (ids : List Bytes) (s : S)
        → HasNumbers s
        → AreClean (take_counts redis ids [] s).0 (take_counts redis ids [] s).1
    take_counts-AreClean ids s h =
        take_counts_rule redis AreClean
          (λ i replies u v u' hi g clean.
            let (there, away) = got_from i u v u' g in
            let (n, e) = clean.1 i v there in
            (
              All-insert (λ d. IsClean d.1) i _ replies (IsClean-number redis.number_error v n e)
                  clean.0,
              less_numbers i u u' away clean.1,
            ))
          (λ i replies u x u' hi g clean.
            let (same, nil, _) = failed_from i u x u' g in
            (
              All-insert (λ d. IsClean d.1) i _ replies nil clean.0,
              λ j v e.
                  clean.1 j v (ap (λ (t : Bytes → Option Bytes). t (views_key j)) (sym same) ∙ e),
            ))
          ids [] s (tt, h)

    -- Once gone, a counter stays gone in the pipeline.
    take_counts-IsGone :
        (id : Int64) (ids : List Bytes) (replies : Dict Int64 (Error ⊎ Int64)) (s : S)
        → IsGone laws s id
        → IsGone laws (take_counts redis ids replies s).1 id
    take_counts-IsGone id =
        take_counts_rule redis (λ _ u. IsGone laws u id)
          (λ i replies u v u' hi g gone.
            unset laws u u' (views_key i) (got_from i u v u' g).1 id gone)
          (λ i replies u x u' hi g gone. same-IsGone laws u u' (failed_from i u x u' g).0 id gone)

    -- The pipeline takes the counter of every link in the batch.
    pub take_counts_clears :
        (id : Int64) (ids : List Bytes) (replies : Dict Int64 (Error ⊎ Int64)) (s : S)
        → id < 2 ^ 64
        → IsIn (format_int id) ids
        → IsGone laws (take_counts redis ids replies s).1 id
    take_counts_clears id [] replies s hid m = absurd m
    take_counts_clears id (a ∷ ids) replies s hid (inl e) =
        let reads : parse_int a ≡ some id = ap parse_int e ∙ parse_int-format_int id hid in
        elim (Outcome-cases (redis.get_del (views_key id) s)) [
          | inl (v, s', g) ↦ rw (take_ret redis a ids id replies s v s' reads g) (
              take_counts-IsGone id ids _ s'
                (now_unset laws s s' (views_key id) (got_from id s v s' g).1, hid))
          | inr (x, s', g) ↦
              let (same, _, absent) = failed_from id s x s' g in
              rw (take_throw redis a ids id replies s x s' reads g)
                (take_counts-IsGone id ids _ s' (same-IsGone laws s s' same id (absent, hid)))
        ]
    take_counts_clears id (a ∷ ids) replies s hid (inr m) = elim (Option-cases (parse_int a)) [
      | inl e ↦ rw (take_skip redis a ids replies s e) (take_counts_clears id ids replies s hid m)
      | inr (i, e) ↦ elim (Outcome-cases (redis.get_del (views_key i) s)) [
        | inl (v, s', g) ↦
            rw (take_ret redis a ids i replies s v s' e g) (take_counts_clears id ids _ s' hid m)
        | inr (x, s', g) ↦
            rw (take_throw redis a ids i replies s x s' e g) (take_counts_clears id ids _ s' hid m)
      ]
    ]

    store_batch_runs :
        (deltas : Dict Int64 Int64) (total : Int64) (more : Int64 → Flow S D → Flushed (Flow S D))
        (w : Flow S D)
        → (t : Int64) × (d : D) × (store_batch redis add_views deltas total more w
            ≡ more t (record w { stored = d }))
    unfolding store_batch
    store_batch_runs [] total more w = (total, w.stored, refl)
    store_batch_runs (d ∷ deltas) total more w =
        stored (add_views (d ∷ deltas) w.stored) (calm.stores (d ∷ deltas) w.stored)
      where
        stored :
            (o : Outcome D (Unit {0}))
            → Post o (λ _ _. Unit {0}) (λ _ _. ⊥)
            → (t : Int64) × (b : D) × ◌≡◌ {A = Flushed (Flow S D)}
                (elim o [
                  | ret _ db ↦ more (add64 total (sum_of (d ∷ deltas))) (record w { stored = db })
                  | throw x db ↦ aborted x total (record {
                    counters = final (restore redis (d ∷ deltas) w.counters);
                    stored = db;
                  })
                ])
                (more t (record w { stored = b }))
        stored (ret u db) h = (_, db, refl)
        stored (throw x db) h = absurd h

    pub flush_ids_runs :
        (ids : List Bytes) (total : Int64) (more : Int64 → Flow S D → Flushed (Flow S D))
        (w : Flow S D)
        → HasNumbers w.counters
        → (t : Int64) × (d : D) × (flush_ids redis add_views ids total more w
            ≡ (if ltb (length ids) flush_batch then complete else more) t
                (record { counters = (take_counts redis ids [] w.counters).1; stored = d }))
    unfolding flush_ids mark_again
    flush_ids_runs ids total more w h =
        rw
          (retries_of_clean (take_counts redis ids [] w.counters).0
            (take_counts-AreClean ids w.counters h).0)
          (store_batch_runs (deltas_of redis (take_counts redis ids [] w.counters).0) total
            (if ltb (length ids) flush_batch then complete else more)
            (record w { counters = (take_counts redis ids [] w.counters).1 }))
