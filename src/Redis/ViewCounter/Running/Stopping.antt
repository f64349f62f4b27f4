-- ===== src/Redis/ViewCounter/Running/Stopping.antt =====
-- view_counter.go, Run: after the context is done the workers come to an end.
use youpass_share_service.Base.{
  Dict, Int64, List, [], ap, arith, inl, inr, length, refl, suc, total, total-update, zero, ℕ, ◌*◌,
  ◌+◌, ◌<◌, ◌∙◌, ◌∷◌, ◌≡◌, ◌≤◌, ◌⊎◌,
}
use youpass_share_service.Outcome.{Act}
use youpass_share_service.Redis.ViewCounter.{Counters, ViewEvent}
use youpass_share_service.Redis.ViewCounter.Running.{
  Runner, Work, Worker, cancelled, count, count_last, drain, draining, gone, handling,
  handling_last, leave, notice, receive, serving,
}

-- How many moves a worker can still make with the event in its hands, and without new ones.
abbrev pub moves_left : Worker → ℕ
moves_left serving = 2
moves_left (handling e) = 4
moves_left draining = 1
moves_left (handling_last e) = 3
moves_left gone = 0

-- A worker's move is at most this many away from the last one, while no request calls Track.
abbrev pub work_left : {S D : Type 0} → ℕ → Runner S D → ℕ
work_left n r = 3 * length r.events + total moves_left n r.workers

moves_few : (p : Worker) → moves_left p ≤ 4
moves_few p = ground arith

total_few : (n : ℕ) (f : ℕ → Worker) → total moves_left n f ≤ 4 * n
unfolding total
total_few zero f = omega arith
total_few (suc n) f = omega (arith, moves_few (f n), total_few n f)

module _ {S D : Type 0} (redis : Counters S) (add_views : Dict Int64 Int64 → Act D (Unit {0}))
    (n : ℕ) where
  -- k moves of workers in a row.
  pub data Works (r : Runner S D) : ℕ → Runner S D → Type 0 where
    no_work : Works r 0 r
    more_work :
        {k : ℕ} {u : Runner S D} {v : Runner S D} (i : ℕ)
        → Works r k u
        → i < n
        → Work redis add_views u i v
        → Works r (suc k) v

  Work-less :
      {r : Runner S D} {i : ℕ} {u : Runner S D}
      → Work redis add_views r i u
      → i < n
      → work_left n u < work_left n r
  Work-less {r} (receive i {e} {rest} is got) lt = omega (
    arith,
    total-update moves_left n r.workers i (handling e) lt,
    ap moves_left is,
    ap (λ (l : List ViewEvent). length l) got,
  )
  Work-less {r} (count i {e} day is) lt =
      omega (arith, total-update moves_left n r.workers i serving lt, ap moves_left is)
  Work-less {r} (notice i is late) lt =
      omega (arith, total-update moves_left n r.workers i draining lt, ap moves_left is)
  Work-less {r} (drain i {e} {rest} is got) lt = omega (
    arith,
    total-update moves_left n r.workers i (handling_last e) lt,
    ap moves_left is,
    ap (λ (l : List ViewEvent). length l) got,
  )
  Work-less {r} (count_last i {e} day is) lt =
      omega (arith, total-update moves_left n r.workers i draining lt, ap moves_left is)
  Work-less {r} (leave i is none_left) lt =
      omega (arith, total-update moves_left n r.workers i gone lt, ap moves_left is)

  Works-bound :
      {r : Runner S D} {k : ℕ} {u : Runner S D} → Works r k u → k + work_left n u ≤ work_left n r
  Works-bound no_work = omega arith
  Works-bound (more_work i ws lt w) = omega (arith, Works-bound ws, Work-less w lt)

  Work-phase :
      {r : Runner S D} {i : ℕ} {u : Runner S D} → Work redis add_views r i u → u.phase ≡ r.phase
  Work-phase (receive i is got) = refl
  Work-phase (count i day is) = refl
  Work-phase (notice i is late) = refl
  Work-phase (drain i is got) = refl
  Work-phase (count_last i day is) = refl
  Work-phase (leave i is none_left) = refl

  Works-phase : {r : Runner S D} {k : ℕ} {u : Runner S D} → Works r k u → u.phase ≡ r.phase
  Works-phase no_work = refl
  Works-phase (more_work i ws lt w) = Work-phase w ∙ Works-phase ws

  -- A worker that has not returned can move.
  abbrev Moves : Runner S D → ℕ → Type 0
  Moves r i = (u : Runner S D) × Work redis add_views r i u

  can_move :
      (r : Runner S D) (i : ℕ) (p : Worker) (l : List ViewEvent)
      → r.phase ≡ cancelled
      → r.workers i ≡ p
      → r.events ≡ l
      → (r.workers i ≡ gone) ⊎ Moves r i
  can_move r i serving l late is got = inr (_, notice i is late)
  can_move r i (handling e) l late is got = inr (_, count i [] is)
  can_move r i draining [] late is got = inr (_, leave i is got)
  can_move r i draining (e ∷ l) late is got = inr (_, drain i is got)
  can_move r i (handling_last e) l late is got = inr (_, count_last i [] is)
  can_move r i gone l late is got = inl is

  -- Once the counter was told to stop, and while `Track` is not called: n workers make at most
  -- three moves for each waiting event and four for each worker, and at any time each of them has
  -- returned or can move.
  pub workers_end :
      {r : Runner S D} {k : ℕ} {u : Runner S D}
      → r.phase ≡ cancelled
      → Works r k u
      → (k ≤ 3 * length r.events + 4 * n)
        × ((i : ℕ) → (u.workers i ≡ gone) ⊎ ((v : Runner S D) × Work redis add_views u i v))
  workers_end {r} {u = u} late ws = (
    omega (arith, Works-bound ws, total_few n r.workers),
    λ i. can_move u i (u.workers i) u.events (Works-phase ws ∙ late) refl refl,
  )
