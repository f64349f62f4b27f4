-- ===== src/Redis/ViewCounter/Conserving.antt =====
-- view_counter.go, flush: a view is in Redis or in the store, and not in both.
use youpass_share_service.Base.{
  All, All-mono, Bool, Bool-cases, Bytes, Dict, Int64, IsMap, List, [], add64, arith, false,
  if◌then◌else◌, inl, inr, is_positive, length, lookup, ltb, refl, subst, suc, sym, total, true,
  zero, ℕ, ◌+◌, ◌<◌, ◌^◌, ◌∷◌, ◌≡◌, ◌⊎◌, nat_eq, bytes_eq_instance,
}
use youpass_share_service.Domain.Error.{Error, err_is}
use youpass_share_service.Outcome.{Act, Outcome, Post, final, ret, throw}
use youpass_share_service.Redis.ViewCounter.{
  Counters, Flow, Flushed, aborted, complete, deltas_of, dirty_key, flush, flush_batch, flush_ids,
  mark_again, restore, retries_of, store_batch, sum_of, take_counts, unfinished,
}
use youpass_share_service.Redis.ViewCounter.Taking.{AreApart, IsHeard, no_replies, take_counts_lem}
use youpass_share_service.Redis.ViewCounter.Flushing.{
  AreDifferent-AreApart, FlowLaws, IsIn, IsLinkId, IsPopped, deltas_of-IsMap, gain, gain-deltas_of,
}
use youpass_share_service.Redis.ViewCounter.Restoring.{
  AreGone, IsGone, IsWritten, all_views, counted, deltas-IsGone, restore_lem, same-IsGone,
  take_counts-IsBatch,
}

module _ {S D : Type 0} {redis : Counters S} {add_views : Dict Int64 Int64 → Act D (Unit {0})}
    (laws : FlowLaws redis add_views) where
  retries-IsLinkId :
      (replies : Dict Int64 (Error ⊎ Int64)) (b : Bytes)
      → All (λ d. d.0 < 2 ^ 64) replies
      → IsIn b (retries_of redis replies)
      → IsLinkId b
  unfolding retries_of
  retries-IsLinkId [] b h m = absurd m
  retries-IsLinkId ((i, inr n) ∷ rest) b h m = retries-IsLinkId rest b h.1 m
  retries-IsLinkId ((i, inl e) ∷ rest) b h m = elim (Bool-cases (err_is e redis.nil_error)) [
    | inl q ↦ retries-IsLinkId rest b h.1 (rw q at m)
    | inr q ↦ elim (rw q at m) [ inl p ↦ (i, h.0, sym p) | inr r ↦ retries-IsLinkId rest b h.1 r ]
  ]

  mark_again_value :
      (rs : List Bytes) (s : S)
      → laws.take.value (mark_again redis add_views rs s) ≡ laws.take.value s
  unfolding mark_again
  mark_again_value [] s = refl
  mark_again_value (r ∷ rs) s = (laws.marked (r ∷ rs) s).0

  mark_again-IsWritten :
      (rs : List Bytes) (s : S)
      → ((b : Bytes) → IsIn b rs → IsLinkId b)
      → IsWritten laws s
      → IsWritten laws (mark_again redis add_views rs s)
  unfolding mark_again
  mark_again-IsWritten [] s h w b m = w b m
  mark_again-IsWritten (r ∷ rs) s h w b m = elim ((laws.marked (r ∷ rs) s).1 b m) [
    | inl p ↦ h b p
    | inr q ↦ w b q
  ]

  -- The views of link id are n where the flush ends, be it with an error.
  abbrev pub EndsWith : ℕ → Int64 → Flushed (Flow S D) → Type 0
  EndsWith n id (complete total w) = all_views laws w id ≡ n
  EndsWith n id (aborted e total w) = all_views laws w id ≡ n
  EndsWith n id unfinished = Unit

  -- What the next round, or the end, makes of a state with n views of link id.
  abbrev Goes : ℕ → Int64 → (Int64 → Flow S D → Flushed (Flow S D)) → Type 0
  Goes n id more =
      (total : Int64) (w : Flow S D)
      → IsWritten laws w.counters
      → all_views laws w id ≡ n
      → EndsWith n id (more total w)

  module _ (heard : IsHeard redis laws.take) (id : Int64) (hid : id < 2 ^ 64) (row : laws.IsRow id)
      (n : ℕ) where
    store_batch_keeps :
        (deltas : Dict Int64 Int64) (total : Int64) (more : Int64 → Flow S D → Flushed (Flow S D))
        (w : Flow S D)
        → IsMap deltas
        → AreGone laws w.counters deltas
        → IsWritten laws w.counters
        → counted laws w.counters id + (laws.views w.stored id + gain deltas id) ≡ n
        → Goes n id more
        → EndsWith n id (store_batch redis add_views deltas total more w)
    unfolding store_batch lookup
    store_batch_keeps [] total more w m g written e next = next total w written (omega arith)
    store_batch_keeps (d ∷ deltas) total more w m g written e next =
        stored (add_views (d ∷ deltas) w.stored) (laws.added (d ∷ deltas) w.stored m)
      where
        stored :
            (o : Outcome D (Unit {0}))
            → Post o
                (λ _ d'.
                  (i : Int64)
                  → laws.IsRow i
                  → laws.views d' i ≡ laws.views w.stored i + gain (d ∷ deltas) i)
                (λ _ d'. (i : Int64) → laws.IsRow i → laws.views d' i ≡ laws.views w.stored i)
            → EndsWith n id (elim o [
              | ret _ db ↦ more (add64 total (sum_of (d ∷ deltas))) (record w { stored = db })
              | throw x db ↦
                  aborted x total (record {
                    counters = final (restore redis (d ∷ deltas) w.counters);
                    stored = db;
                  })
            ])
        stored (ret u db) h = next _ _ written (omega (arith, h id row, e))
        stored (throw x db) h =
            omega (arith, h id row, restore_lem laws (d ∷ deltas) w.counters id hid m g, e)

    flush_ids_keeps :
        (ids : List Bytes) (total : Int64) (more : Int64 → Flow S D → Flushed (Flow S D))
        (w : Flow S D)
        → AreApart ids
        → IsWritten laws w.counters
        → all_views laws w id ≡ n
        → Goes n id more
        → EndsWith n id (flush_ids redis add_views ids total more w)
    unfolding flush_ids take_counts lookup
    flush_ids_keeps ids total more w apart written e next =
        let (replies, s) = take_counts redis ids [] w.counters in
        let batch = take_counts-IsBatch laws ids w.counters in
        let again = retries_of redis replies in
        let same = mark_again_value again s in
        store_batch_keeps (deltas_of redis replies) total
          (if ltb (length ids) flush_batch then complete else more)
          (record w { counters = mark_again redis add_views again s })
          (deltas_of-IsMap redis replies batch.once)
          (All-mono (λ d. IsGone laws s d.0 × (is_positive d.1 ≡ true)) _ (deltas_of redis replies)
            (λ d p. (same-IsGone laws s _ same d.0 p.0, p.1))
            (deltas-IsGone laws s replies batch.taken))
          (mark_again-IsWritten again s (λ b. retries-IsLinkId replies b batch.bounded)
            (λ b m. written b (subst (λ (l : List Bytes). IsIn b l) batch.same m)))
          (rw (same, gain-deltas_of redis id replies batch.once)
            (omega (
              arith,
              e,
              take_counts_lem redis laws.take heard ids id hid apart [] w.counters (no_replies ids),
            )))
          (rest (Bool-cases (ltb (length ids) flush_batch)))
      where
        rest : {b : Bool} → (b ≡ true) ⊎ (b ≡ false) → Goes n id (if b then complete else more)
        rest (inl q) t w written e = rw q e
        rest (inr q) t w written e = rw q (next t w written e)

    -- On a Redis as documented whose INCRBY does not fail, and of which no reply of a GETDEL that
    -- was executed is lost, on a store that adds the deltas or, with an error, does nothing, and
    -- from a dirty set that holds only link IDs: wherever `flush` ends, with or without an error
    -- and whichever other commands fail, every link of the store has as many views in its counter
    -- and its row together as before. `EndsWith` says nothing of a run whose fuel is spent.
    pub flush_conserves :
        (fuel : ℕ) (total : Int64) (w : Flow S D)
        → IsWritten laws w.counters
        → all_views laws w id ≡ n
        → EndsWith n id (flush redis add_views fuel total w)
    unfolding flush
    flush_conserves zero total w written e = tt
    flush_conserves (suc fuel) total w written e =
        round (flush_conserves fuel) (redis.s_pop dirty_key flush_batch w.counters)
          (laws.popped w.counters)
      where
        round :
            Goes n id (flush redis add_views fuel)
            → (o : Outcome S (List Bytes))
            → Post o (IsPopped laws.take.value laws.members w.counters) (λ e s'.
              (laws.take.value s' ≡ laws.take.value w.counters)
              × (laws.members s' ≡ laws.members w.counters))
            → EndsWith n id (elim o [
              | throw e s ↦
                  if err_is e redis.nil_error
                  then complete total (record w { counters = s })
                  else aborted e total (record w { counters = s })
              | ret [] s ↦ complete total (record w { counters = s })
              | ret (raw ∷ ids) s ↦
                  flush_ids redis add_views
                    (raw ∷ ids)
                    total
                    (flush redis add_views fuel)
                    (record w { counters = s })
            ])
        round again (throw x s) h = elim (Bool-cases (err_is x redis.nil_error)) [
          | inl q ↦ rw (q, h.0) e
          | inr q ↦ rw (q, h.0) e
        ]
        round again (ret [] s) h = rw h.0 e
        round again (ret (raw ∷ ids) s) (same, different, _, _, back, _) =
            flush_ids_keeps (raw ∷ ids) total (flush redis add_views fuel)
              (record w { counters = s })
              (AreDifferent-AreApart (raw ∷ ids) (λ b m. written b (back b (inl m))) different)
              (λ b m. written b (back b (inr m))) (rw same e) again
