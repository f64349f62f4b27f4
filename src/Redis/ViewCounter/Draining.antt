-- ===== src/Redis/ViewCounter/Draining.antt =====
-- view_counter.go, flush: when no command fails it ends, and leaves no view in Redis.
use youpass_share_service.Base.{
  Bool-cases, Bytes, Dict, Int64, List, Option, [], ap, arith, false, if◌then◌else◌, inl, inr,
  length, lookup, ltb, ltb→lt, refl, subst, suc, sym, total, true, zero, ℕ, ◌*◌, ◌+◌, ◌<◌, ◌^◌, ◌∙◌,
  ◌∷◌, ◌≡◌, ◌≤◌, nat_eq, bytes_eq_instance,
}
use youpass_share_service.Base.Decimal.{format_int}
use youpass_share_service.Domain.Error.{err_is}
use youpass_share_service.Outcome.{Act, Outcome, Post, ret, throw}
use youpass_share_service.Redis.ViewCounter.{
  Counters, Flow, Flushed, aborted, complete, dirty_key, flush, flush_batch, flush_ids, take_counts,
  views_key,
}
use youpass_share_service.Redis.ViewCounter.Taking.{no_replies, take_counts_lem}
use youpass_share_service.Redis.ViewCounter.Flushing.{
  AreDifferent-AreApart, FlowLaws, IsIn, IsPopped,
}
use youpass_share_service.Redis.ViewCounter.Restoring.{
  IsWritten, all_views, counted, gone_counted, take_counts-IsBatch,
}
use youpass_share_service.Redis.ViewCounter.Conserving.{EndsWith, flush_conserves}
use youpass_share_service.Redis.ViewCounter.Rounds.{
  HasNumbers, IsCalm, IsMarked, calm-IsHeard, flush_ids_runs, take_counts-AreClean,
  take_counts_clears,
}

not_less : (a b : ℕ) → ltb a b ≡ false → b ≤ a
not_less a b h = ground arith

empty_of_length : {A : Type 0} (l : List A) → length l ≡ 0 → l ≡ []
empty_of_length [] h = refl
empty_of_length (x ∷ l) h = absurd (omega arith)

module _ {S D : Type 0} {redis : Counters S} {add_views : Dict Int64 Int64 → Act D (Unit {0})}
    (laws : FlowLaws redis add_views) (calm : IsCalm laws) where
  -- The flush ends without an error, the dirty set is empty, and Redis holds no view.
  abbrev IsDrained : Flow S D → Type 0
  IsDrained w =
      (laws.members w.counters ≡ []) × ((i : Int64) → i < 2 ^ 64 → counted laws w.counters i ≡ 0)

  abbrev Drains : Flushed (Flow S D) → Type 0
  Drains o = (t : Int64) × (w : Flow S D) × (o ≡ complete t w) × IsDrained w

  -- What a flush keeps between two rounds.
  record IsReady (s : S) : Type 0 where
    written : IsWritten laws s
    numbers : HasNumbers laws s
    marked : IsMarked laws s

  unmarked :
      (s : S)
      → IsMarked laws s
      → laws.members s ≡ []
      → (i : Int64) → i < 2 ^ 64
      → counted laws s i ≡ 0
  unmarked s m none_left i hi = elim (m i hi) [
    | inl z ↦ z
    | inr p ↦ absurd (subst (IsIn (format_int i)) none_left p)
  ]

  same_counted :
      (s s' : S)
      → laws.take.value s' ≡ laws.take.value s
      → (i : Int64) → counted laws s' i ≡ counted laws s i
  same_counted s s' e i = rw e refl

  -- The round on what SPOP took.
  IsReady-next :
      (ids : List Bytes) (s s₁ : S)
      → IsReady s
      → IsPopped laws.take.value laws.members s ids s₁
      → IsReady (take_counts redis ids [] s₁).1
        × (laws.members (take_counts redis ids [] s₁).1 ≡ laws.members s₁)
  unfolding lookup
  IsReady-next ids s s₁ ready (same, different, _, _, back, split) =
      let written₁ : IsWritten laws s₁ = λ b m. ready.written b (back b (inr m)) in
      let numbers₁ : HasNumbers laws s₁ = λ i v e.
        ready.numbers i v (ap (λ (t : Bytes → Option Bytes). t (views_key i)) (sym same) ∙ e) in
      let batch = take_counts-IsBatch laws ids s₁ in
      let apart = AreDifferent-AreApart ids (λ b m. ready.written b (back b (inl m))) different in
      (
        record {
          written = λ b m. written₁ b (subst (IsIn b) batch.same m);
          numbers = (take_counts-AreClean laws calm ids s₁ numbers₁).1;
          marked = λ i hi. elim (ready.marked i hi) [
            | inl z ↦ inl (
                omega (
                  arith,
                  take_counts_lem redis laws.take (calm-IsHeard laws calm) ids i hi apart [] s₁
                      (no_replies ids),
                  same_counted s s₁ same i,
                  z,
                ))
            | inr p ↦ elim (split (format_int i) p) [
              | inl q ↦ inl (gone_counted laws _ i (take_counts_clears laws calm i ids [] s₁ hi q))
              | inr q ↦ inr (subst (IsIn (format_int i)) (sym batch.same) q)
            ]
          ];
        },
        batch.same,
      )

  flush-Drains :
      (fuel : ℕ) (total : Int64) (w : Flow S D)
      → IsReady w.counters
      → length (laws.members w.counters) < fuel * flush_batch
      → Drains (flush redis add_views fuel total w)
  unfolding flush
  flush-Drains zero total w ready enough = absurd (omega arith)
  flush-Drains (suc fuel) total w ready enough =
      round (flush-Drains fuel) (redis.s_pop dirty_key flush_batch w.counters)
        (laws.popped w.counters) (calm.pops w.counters)
    where
      round :
          ((t : Int64) (u : Flow S D)
            → IsReady u.counters
            → length (laws.members u.counters) < fuel * flush_batch
            → Drains (flush redis add_views fuel t u))
          → (o : Outcome S (List Bytes))
          → Post o (IsPopped laws.take.value laws.members w.counters) (λ e s'.
            (laws.take.value s' ≡ laws.take.value w.counters)
            × (laws.members s' ≡ laws.members w.counters))
          → Post o
              (λ _ _. Unit {0})
              (λ e _. (err_is e redis.nil_error ≡ true) × (laws.members w.counters ≡ []))
          → Drains (elim o [
            | throw e s ↦
                if err_is e redis.nil_error
                then complete total (record w { counters = s })
                else aborted e total (record w { counters = s })
            | ret [] s ↦ complete total (record w { counters = s })
            | ret (raw ∷ ids) s ↦
                flush_ids redis add_views
                  (raw ∷ ids)
                  total
                  (flush redis add_views fuel)
                  (record w { counters = s })
          ])
      round again (throw x s) (same, kept) (nil, nothing) = rw nil (
          (
            total,
            record w { counters = s },
            refl,
            (
              kept ∙ nothing,
              λ i hi.
                  same_counted w.counters s same i ∙ unmarked w.counters ready.marked nothing i hi,
            ),
          ))
      round again (ret [] s) (same, _, few, size, _, _) _ =
          let nothing : laws.members w.counters ≡ [] =
            empty_of_length (laws.members w.counters)
              (omega (arith, size, ap (λ (l : List Bytes). length l) (few (omega arith)))) in
          (
            total,
            record w { counters = s },
            refl,
            (
              few (omega arith),
              λ i hi.
                  same_counted w.counters s same i ∙ unmarked w.counters ready.marked nothing i hi,
            ),
          )
      round again (ret (raw ∷ ids) s) h _ =
          let (ready', kept) = IsReady-next (raw ∷ ids) w.counters s ready h in
          let (t, d, e) =
            flush_ids_runs laws calm (raw ∷ ids) total (flush redis add_views fuel)
              (record w { counters = s })
              (λ i v e.
                ready.numbers i v
                  (ap (λ (m : Bytes → Option Bytes). m (views_key i)) (sym h.0) ∙ e)) in
          rw e (elim (Bool-cases (ltb (length (raw ∷ ids)) flush_batch)) [
            | inl q ↦
                let nothing = kept ∙ h.2 (ltb→lt (length (raw ∷ ids)) flush_batch q) in
                rw q (t, _, refl, (nothing, unmarked _ ready'.marked nothing))
            | inr q ↦ rw q (
                again t _ ready' (
                  rw kept
                    (omega (arith, h.3, not_less (length (raw ∷ ids)) flush_batch q, enough))))
          ])

  -- On a Redis as documented and a store that adds the deltas, if no command fails, every counter
  -- in Redis holds a number, every link with views in Redis is dirty, and the dirty set holds only
  -- link IDs: with fuel for more than a thousandth of the dirty links, `flush` ends without an
  -- error, no link is dirty any more, and every link of the store has in its row the views that
  -- were there and those that waited in Redis.
  pub flush_drains :
      (fuel : ℕ) (total : Int64) (w : Flow S D)
      → IsWritten laws w.counters
      → HasNumbers laws w.counters
      → IsMarked laws w.counters
      → length (laws.members w.counters) < fuel * flush_batch
      → (t : Int64) × (w' : Flow S D) × (flush redis add_views fuel total w ≡ complete t w')
        × (laws.members w'.counters ≡ [])
        × ((i : Int64)
            → i < 2 ^ 64
            → laws.IsRow i
            → laws.views w'.stored i ≡ laws.views w.stored i + counted laws w.counters i)
  flush_drains fuel total w written numbers marked enough =
      let ready : IsReady w.counters = record {
        written = written;
        numbers = numbers;
        marked = marked;
      } in
      let (t, w', e, (nothing, zero_views)) = flush-Drains fuel total w ready enough in
      (
        t,
        w',
        e,
        nothing,
        λ i hi row.
            let kept : all_views laws w' i ≡ all_views laws w i =
              subst (EndsWith laws (all_views laws w i) i) e (
                flush_conserves laws (calm-IsHeard laws calm) i hi row (all_views laws w i) fuel
                  total w written refl) in
            omega (arith, kept, zero_views i hi),
      )
