-- ===== src/Redis/ViewCounter/Running/Keeping.antt =====
-- view_counter.go, Run: no event is lost between Track and Redis.
use youpass_share_service.Base.{
  Bool-cases, Bytes, Dict, Int64, List, [], ap, arith, eqb, false, if◌then◌else◌, inl, inr, length,
  length-append, ltb→lt, refl, subst, sym, total, total-update, total_zero, true≢false, update,
  update_all, ℕ, ◌++◌, ◌+◌, ◌<◌, ◌∙◌, ◌∷◌, ◌≡◌, ◌≤◌,
}
use youpass_share_service.Outcome.{Act}
use youpass_share_service.Redis.ViewCounter.{Counters, Flow, ViewEvent, enqueue, event_buffer}
use youpass_share_service.Redis.ViewCounter.Running.{
  Move, Phase, Runner, Runs, Work, Worker, begun, cancelled, count, count_last, counted_event,
  drain, draining, finished, gone, handling, handling_last, has_room, last_flush, leave, listening,
  moved, notice, receive, serving, shut, shutdown, shutdown_failed, stop_counter, stop_ticking,
  tick, track, work,
}

-- The sum of a weight over events; weights tell events apart.
abbrev pub sum_by : (ViewEvent → ℕ) → List ViewEvent → ℕ
sum_by f [] = 0
sum_by f (e ∷ l) = f e + sum_by f l

sum_by-append :
    (f : ViewEvent → ℕ) (l m : List ViewEvent) → sum_by f (l ++ m) ≡ sum_by f l + sum_by f m
sum_by-append f [] m = omega arith
sum_by-append f (e ∷ l) m = omega (arith, sum_by-append f l m)

-- What a worker has in its hands.
abbrev pub in_hand : (ViewEvent → ℕ) → Worker → ℕ
in_hand f (handling e) = f e
in_hand f (handling_last e) = f e
in_hand f _ = 0

-- The context was not done yet.
abbrev IsEarly : Worker → Type 0
IsEarly serving = Unit
IsEarly (handling e) = Unit
IsEarly _ = ⊥

-- Before stopCounter.
abbrev IsRunning : Phase → Type 0
IsRunning listening = Unit
IsRunning shut = Unit
IsRunning _ = ⊥

shut≢finished : shut ≡ finished → ⊥
shut≢finished e = cc

cancelled≢finished : cancelled ≡ finished → ⊥
cancelled≢finished e = cc

listening≢finished : listening ≡ finished → ⊥
listening≢finished e = cc

draining≢gone : draining ≡ gone → ⊥
draining≢gone e = cc

module _ {S D : Type 0} (n : ℕ) where
  abbrev pub IsKept : Runner S D → Type 0
  IsKept r =
      (f : ViewEvent → ℕ)
      → sum_by f r.accepted ≡ sum_by f r.handled + total (in_hand f) n r.workers + sum_by f r.events

  pub record IsOrderly (r : Runner S D) : Type 0 where
    pub bounded : length r.events ≤ event_buffer
    pub kept : IsKept r
    pub early : IsRunning r.phase → (i : ℕ) → IsEarly (r.workers i)
    pub emptied : r.requests ≡ false → (i : ℕ) → r.workers i ≡ gone → r.events ≡ []
    pub all_gone : r.phase ≡ finished → (i : ℕ) → i < n → r.workers i ≡ gone

  -- Worker i goes from p to q, and nothing is lost.
  turn-IsKept :
      (r : Runner S D) (i : ℕ) (p q : Worker) (events handled : List ViewEvent)
      → i < n
      → r.workers i ≡ p
      → ((f : ViewEvent → ℕ)
          → sum_by f handled + in_hand f q + sum_by f events
            ≡ sum_by f r.handled + in_hand f p + sum_by f r.events)
      → IsKept r
      → (f : ViewEvent → ℕ)
      → sum_by f r.accepted
        ≡ sum_by f handled + total (in_hand f) n (update r.workers i q) + sum_by f events
  turn-IsKept r i p q events handled lt e same kept f =
      omega (arith, total-update (in_hand f) n r.workers i q lt, ap (in_hand f) e, same f, kept f)

  -- A move of a worker that does not leave.
  turn-IsOrderly :
      (r : Runner S D) (i : ℕ) (p q : Worker) (events handled : List ViewEvent) (w : Flow S D)
      → i < n
      → r.workers i ≡ p
      → (q ≡ gone → ⊥)
      → (IsRunning r.phase → IsEarly p → IsEarly q)
      → (p ≡ gone → ⊥)
      → length events ≤ length r.events
      → (r.events ≡ [] → events ≡ [])
      → ((f : ViewEvent → ℕ)
          → sum_by f handled + in_hand f q + sum_by f events
            ≡ sum_by f r.handled + in_hand f p + sum_by f r.events)
      → IsOrderly r
      → IsOrderly (record r {
        events = events;
        flow = w;
        workers = update r.workers i q;
        handled = handled;
      })
  turn-IsOrderly r i p q events handled w lt e stays early over fewer none_left same h = record {
    bounded = omega (arith, h.bounded);
    kept = turn-IsKept r i p q events handled lt e same h.kept;
    early = λ running.
        update_all (λ _ v. IsEarly v) r.workers i q (h.early running)
          (early running (subst IsEarly e (h.early running i)));
    emptied = λ closed j left. none_left (elim (Bool-cases (eqb i j)) [
      | inl k ↦ absurd (stays (rw k at left))
      | inr k ↦ h.emptied closed j (rw k at left)
    ]);
    all_gone = λ done. absurd (over (sym e ∙ h.all_gone done i lt));
  }

module _ {S D : Type 0} (redis : Counters S) (add_views : Dict Int64 Int64 → Act D (Unit {0}))
    (n : ℕ) where
  taken_out :
      (f : ViewEvent → ℕ) (e : ViewEvent) (rest events handled : List ViewEvent)
      → events ≡ e ∷ rest
      → sum_by f handled + f e + sum_by f rest ≡ sum_by f handled + 0 + sum_by f events
  taken_out f e rest events handled is = omega (arith, ap (sum_by f) is)

  fewer :
      (e : ViewEvent) (rest events : List ViewEvent)
      → events ≡ e ∷ rest
      → length rest ≤ length events
  fewer e rest events is = omega (arith, ap (λ (l : List ViewEvent). length l) is)

  not_empty :
      (e : ViewEvent) (rest events : List ViewEvent) → events ≡ e ∷ rest → events ≡ [] → rest ≡ []
  not_empty e rest events is none_left = absurd (cc)

  Work-IsOrderly :
      {r : Runner S D} {i : ℕ} {u : Runner S D}
      → Work redis add_views r i u
      → i < n
      → IsOrderly n r
      → IsOrderly n u
  Work-IsOrderly {r} (receive i {e} {rest} is got) lt h =
      turn-IsOrderly n r i serving (handling e) rest r.handled r.flow lt is (λ q. cc) (λ _ q. tt)
        (λ q. cc) (fewer e rest r.events got) (not_empty e rest r.events got)
        (λ f. taken_out f e rest r.events r.handled got) h
  Work-IsOrderly {r} (count i {e} day is) lt h =
      turn-IsOrderly n r i (handling e) serving r.events (e ∷ r.handled)
        (counted_event redis add_views day e r.flow) lt is (λ q. cc) (λ _ q. tt) (λ q. cc)
        (omega arith) (λ q. q) (λ f. omega arith) h
  Work-IsOrderly {r} (notice i is late) lt h =
      turn-IsOrderly n r i serving draining r.events r.handled r.flow lt is (λ q. cc)
        (λ running q. subst IsRunning late running) (λ q. cc) (omega arith) (λ q. q)
        (λ f. omega arith) h
  Work-IsOrderly {r} (drain i {e} {rest} is got) lt h =
      turn-IsOrderly n r i draining (handling_last e) rest r.handled r.flow lt is (λ q. cc)
        (λ _ q. q) (λ q. cc) (fewer e rest r.events got) (not_empty e rest r.events got)
        (λ f. taken_out f e rest r.events r.handled got) h
  Work-IsOrderly {r} (count_last i {e} day is) lt h =
      turn-IsOrderly n r i (handling_last e) draining r.events (e ∷ r.handled)
        (counted_event redis add_views day e r.flow) lt is (λ q. cc) (λ _ q. q) (λ q. cc)
        (omega arith) (λ q. q) (λ f. omega arith) h
  Work-IsOrderly {r} (leave i is none_left) lt h = record {
    bounded = h.bounded;
    kept = turn-IsKept n r i draining gone r.events r.handled lt is (λ f. omega arith) h.kept;
    early = λ running. absurd (subst IsEarly is (h.early running i));
    emptied = λ closed j left. none_left;
    all_gone = λ done. absurd (draining≢gone (sym is ∙ h.all_gone done i lt));
  }

  enqueue_bounded :
      (id : Int64) (visitor : Bytes) (events : List ViewEvent)
      → length events ≤ event_buffer
      → length (enqueue id visitor events) ≤ event_buffer
  unfolding enqueue
  enqueue_bounded id visitor events h = elim (Bool-cases (has_room events)) [
    | inl q ↦ rw q (
        omega (
          arith,
          ltb→lt (length events) event_buffer q,
          length-append events ((record { link_id = id; visitor = visitor }) ∷ []),
        ))
    | inr q ↦ rw q h
  ]

  enqueue_kept :
      (f : ViewEvent → ℕ) (id : Int64) (visitor : Bytes) (events accepted : List ViewEvent)
      (rest : ℕ)
      → sum_by f accepted ≡ rest + sum_by f events
      → sum_by f (
          if has_room events
          then (record { link_id = id; visitor = visitor }) ∷ accepted
          else accepted)
        ≡ rest + sum_by f (enqueue id visitor events)
  unfolding enqueue
  enqueue_kept f id visitor events accepted rest h = elim (Bool-cases (has_room events)) [
    | inl q ↦ rw q (
        omega
          (arith, h, sum_by-append f events ((record { link_id = id; visitor = visitor }) ∷ [])))
    | inr q ↦ rw q h
  ]

  Move-IsOrderly :
      {r : Runner S D} {u : Runner S D} → Move redis add_views n r u → IsOrderly n r → IsOrderly n u
  Move-IsOrderly {r} (track id visitor open_now) h = record {
    bounded = enqueue_bounded id visitor r.events h.bounded;
    kept = λ f.
        enqueue_kept f id visitor r.events r.accepted
          (sum_by f r.handled + total (in_hand f) n r.workers) (h.kept f);
    early = h.early;
    emptied = λ closed. absurd (true≢false (sym open_now ∙ closed));
    all_gone = h.all_gone;
  }
  Move-IsOrderly (work i lt w) h = Work-IsOrderly w lt h
  Move-IsOrderly (tick fuel on e) h = record {
    bounded = h.bounded;
    kept = h.kept;
    early = h.early;
    emptied = h.emptied;
    all_gone = h.all_gone;
  }
  Move-IsOrderly (stop_ticking e) h = record {
    bounded = h.bounded;
    kept = h.kept;
    early = h.early;
    emptied = h.emptied;
    all_gone = h.all_gone;
  }
  Move-IsOrderly (shutdown e) h = record {
    bounded = h.bounded;
    kept = h.kept;
    early = λ _. h.early (subst IsRunning (sym e) tt);
    emptied = λ _ i left. absurd (subst IsEarly left (h.early (subst IsRunning (sym e) tt) i));
    all_gone = λ done. absurd (shut≢finished done);
  }
  Move-IsOrderly (shutdown_failed e) h = record {
    bounded = h.bounded;
    kept = h.kept;
    early = λ _. h.early (subst IsRunning (sym e) tt);
    emptied = h.emptied;
    all_gone = λ done. absurd (shut≢finished done);
  }
  Move-IsOrderly (stop_counter e) h = record {
    bounded = h.bounded;
    kept = h.kept;
    early = λ running. absurd running;
    emptied = h.emptied;
    all_gone = λ done. absurd (cancelled≢finished done);
  }
  Move-IsOrderly (last_flush fuel e off left f) h = record {
    bounded = h.bounded;
    kept = h.kept;
    early = λ running. absurd running;
    emptied = h.emptied;
    all_gone = λ _. left;
  }

  Runs-IsOrderly : {w : Flow S D} {r : Runner S D} → Runs redis add_views n w r → IsOrderly n r
  Runs-IsOrderly begun = record {
    bounded = omega arith;
    kept = λ f. omega (arith, total_zero (in_hand f) n (λ _. serving) (λ i lt. refl));
    early = λ _ i. tt;
    emptied = λ _ i left. refl;
    all_gone = λ done. absurd (listening≢finished done);
  }
  Runs-IsOrderly (moved r m) = Move-IsOrderly m (Runs-IsOrderly r)

  -- In every state that n workers, the flusher, the requests and main reach: at most eventBuffer
  -- events wait, and every event that `Track` took was handled, is in a worker's hands or waits in
  -- the buffer.
  pub Runs-IsKept :
      {w : Flow S D} {r : Runner S D}
      → Runs redis add_views n w r
      → (length r.events ≤ event_buffer) × IsKept n r
  Runs-IsKept runs = let h = Runs-IsOrderly runs in (h.bounded, h.kept)

  -- With a worker at least, once the last flush was done, and if no request was left when the
  -- counter was told to stop: the buffer is empty and every event that `Track` took was handled,
  -- as often as it was taken.
  pub stop_handles_all :
      {w : Flow S D} {r : Runner S D}
      → 0 < n
      → Runs redis add_views n w r
      → r.phase ≡ finished
      → r.requests ≡ false
      → (r.events ≡ []) × ((f : ViewEvent → ℕ) → sum_by f r.accepted ≡ sum_by f r.handled)
  stop_handles_all {r = r} some_worker runs done closed =
      let h = Runs-IsOrderly runs in
      let none_left = h.emptied closed 0 (h.all_gone done 0 some_worker) in
      (
        none_left,
        λ f. omega (
          arith,
          h.kept f,
          ap (sum_by f) none_left,
          total_zero (in_hand f) n r.workers (λ i lt. ap (in_hand f) (h.all_gone done i lt)),
        ),
      )
