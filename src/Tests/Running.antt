-- ===== src/Tests/Running.antt =====
-- The theorems on Run, with one worker, from a request to the end of main.
use youpass_share_service.Base.{
  Int64, [], ap, arith, codes, false, length, refl, subst, suc, sym, update, zero, ℕ, ◌*◌, ◌+◌, ◌<◌,
  ◌∙◌, ◌∷◌, ◌≡◌, ◌≤◌, ◌⊎◌,
}
use youpass_share_service.Base.Decimal.{}
use youpass_share_service.Domain.Error.{}
use youpass_share_service.Outcome.{}
use youpass_share_service.Redis.ViewCounter.{
  Flow, Flushed, ViewEvent, complete, enqueue, event_buffer, flush, handle_event, record_view,
  track_script,
}
use youpass_share_service.Redis.ViewCounter.Draining.{flush_drains}
use youpass_share_service.Redis.ViewCounter.Flushing.{}
use youpass_share_service.Redis.ViewCounter.Running.{
  EndsIn, Runner, Runs, Work, at_first, begun, cancelled, count_last, counted_event, drain,
  draining, finished, gone, handling_last, last_flush, leave, moved, notice, shutdown, stop_counter,
  stop_ticking, track, work,
}
use youpass_share_service.Redis.ViewCounter.Running.Keeping.{
  IsKept, Runs-IsKept, stop_handles_all, sum_by,
}
use youpass_share_service.Redis.ViewCounter.Running.Stopping.{
  Works, more_work, no_work, workers_end,
}
use youpass_share_service.Tests.Flush.{
  Tally, View, add_all, tallies, tallies-IsCalm, tally_laws, waiting, waiting-HasNumbers,
  waiting-IsMarked, waiting-IsWritten,
}

abbrev Site : Type 0
Site = Runner Tally View

abbrev seen : ViewEvent
seen = record { link_id = 1; visitor = codes "v" }

-- The end of the flush of what waits in Redis.
flushed : (t : Int64) × (w : Flow Tally View) × (flush tallies add_all 1 0 waiting ≡ complete t w)
flushed =
    let (t, w, e, _, _) =
      flush_drains tally_laws tallies-IsCalm 1 0 waiting waiting-IsWritten waiting-HasNumbers
        waiting-IsMarked (omega arith) in
    (t, w, e)

abbrev tracked : Site
tracked = record (at_first tallies add_all waiting) { events = seen ∷ []; accepted = seen ∷ [] }

abbrev told : Site
told = record tracked { requests = false; phase = cancelled }

abbrev busy : Site
busy = record told {
  events = [];
  workers = update (update told.workers 0 draining) 0 (handling_last seen);
}

abbrev idle : Site
idle = record busy {
  flow = counted_event tallies add_all [] seen waiting;
  workers = update busy.workers 0 draining;
  handled = seen ∷ [];
}

abbrev over : Site
over = record idle { workers = update idle.workers 0 gone }

abbrev ended : Site
ended = record over { ticking = false; flow = flushed.1; phase = finished }

to_told : Runs tallies add_all 1 waiting told
unfolding enqueue
to_told = moved (moved (moved begun (track 1 (codes "v") refl)) (shutdown refl)) (stop_counter refl)

told-Works : Works tallies add_all 1 told 2 busy
told-Works =
    more_work 0 (more_work 0 no_work (omega arith) (notice 0 refl refl)) (omega arith)
      (drain 0 {e = seen} refl refl)

workers_end_example :
    (2 ≤ 3 * length told.events + 4 * 1)
    × ((i : ℕ) → (busy.workers i ≡ gone) ⊎ ((v : Site) × Work tallies add_all busy i v))
workers_end_example = workers_end tallies add_all 1 refl told-Works

only_worker : (i : ℕ) → i < 1 → over.workers i ≡ gone
only_worker zero lt = refl
only_worker (suc i) lt = absurd (omega arith)

same_flow : idle.flow ≡ waiting
unfolding counted_event handle_event record_view track_script
same_flow = refl

to_end : Runs tallies add_all 1 waiting ended
to_end =
    moved
      (moved
        (moved
          (moved
            (moved (moved to_told (work 0 (omega arith) (notice 0 refl refl)))
              (work 0 (omega arith) (drain 0 {e = seen} refl refl)))
            (work 0 (omega arith) (count_last 0 {e = seen} [] refl)))
          (work 0 (omega arith) (leave 0 refl refl)))
        (stop_ticking refl))
      (last_flush 1 {w = flushed.1} refl refl only_worker (
        subst (λ (o : Flushed (Flow Tally View)). EndsIn o flushed.1)
          (sym (ap (flush tallies add_all 1 0) same_flow ∙ flushed.2)) refl))

stop_handles_all_example :
    (ended.events ≡ []) × ((f : ViewEvent → ℕ) → sum_by f ended.accepted ≡ sum_by f ended.handled)
stop_handles_all_example = stop_handles_all tallies add_all 1 (omega arith) to_end refl refl

Runs-IsKept_example : (length told.events ≤ event_buffer) × IsKept 1 told
Runs-IsKept_example = Runs-IsKept tallies add_all 1 to_told
