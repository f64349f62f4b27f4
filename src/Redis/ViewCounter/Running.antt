-- ===== src/Redis/ViewCounter/Running.antt =====
-- view_counter.go, Run, with the requests that call Track and the shutdown of cmd/api/main.go: the
-- workers, the flusher and main move in any order. A flush is one move here.
pub mod Keeping
pub mod Stopping
use youpass_share_service.Base.{
  Bool, Bytes, Dict, Int64, List, [], false, if◌then◌else◌, length, ltb, total, true, update, ℕ,
  ◌<◌, ◌∷◌, ◌≡◌,
}
use youpass_share_service.Outcome.{Act, final}
use youpass_share_service.Redis.ViewCounter.{
  Counters, Flow, Flushed, ViewEvent, aborted, complete, enqueue, event_buffer, flush, handle_event,
  unfinished,
}

-- Where a worker stands: in its first loop, with an event of it, in the loop after the context is
-- done, with an event of that, or returned.
pub data Worker : Type 0 where
  serving : Worker
  handling : ViewEvent → Worker
  draining : Worker
  handling_last : ViewEvent → Worker
  gone : Worker

-- Where main stands: before srv.Shutdown, after it, after stopCounter, and after the final flush.
pub data Phase : Type 0 where
  listening : Phase
  shut : Phase
  cancelled : Phase
  finished : Phase

-- `requests` says whether requests may still run. The events that Track took and those that were
-- handled are kept for the theorems; the program has no such lists.
pub record Runner (S D : Type 0) : Type 0 where
  pub events : List ViewEvent
  pub flow : Flow S D
  pub workers : ℕ → Worker
  pub ticking : Bool
  pub requests : Bool
  pub phase : Phase
  pub accepted : List ViewEvent
  pub handled : List ViewEvent

-- Track has room.
abbrev pub has_room : List ViewEvent → Bool
has_room events = ltb (length events) event_buffer

-- The state in which a flush ends, with an error or without.
abbrev pub EndsIn : {W : Type 0} → Flushed W → W → Type 0
EndsIn (complete total w) u = w ≡ u
EndsIn (aborted e total w) u = w ≡ u
EndsIn unfinished u = ⊥

module _ {S D : Type 0} (redis : Counters S) (add_views : Dict Int64 Int64 → Act D (Unit {0})) where
  unfoldable pub counted_event : Bytes → ViewEvent → Flow S D → Flow S D
  counted_event day e w = record w { counters = final (handle_event redis day e w.counters) }

  -- A move of worker i. `day` is what the clock says.
  pub data Work (r : Runner S D) : ℕ → Runner S D → Type 0 where
    receive :
        (i : ℕ) {e : ViewEvent} {rest : List ViewEvent}
        → r.workers i ≡ serving
        → r.events ≡ e ∷ rest
        → Work r i (record r { events = rest; workers = update r.workers i (handling e) })
    count :
        (i : ℕ) {e : ViewEvent} (day : Bytes)
        → r.workers i ≡ handling e
        → Work r i (record r {
          flow = counted_event day e r.flow;
          workers = update r.workers i serving;
          handled = e ∷ r.handled;
        })
    notice :
        (i : ℕ)
        → r.workers i ≡ serving
        → r.phase ≡ cancelled
        → Work r i (record r { workers = update r.workers i draining })
    drain :
        (i : ℕ) {e : ViewEvent} {rest : List ViewEvent}
        → r.workers i ≡ draining
        → r.events ≡ e ∷ rest
        → Work r i (record r { events = rest; workers = update r.workers i (handling_last e) })
    count_last :
        (i : ℕ) {e : ViewEvent} (day : Bytes)
        → r.workers i ≡ handling_last e
        → Work r i (record r {
          flow = counted_event day e r.flow;
          workers = update r.workers i draining;
          handled = e ∷ r.handled;
        })
    leave :
        (i : ℕ)
        → r.workers i ≡ draining
        → r.events ≡ []
        → Work r i (record r { workers = update r.workers i gone })

  -- A move of a request, of one of n workers, of the flusher or of main.
  pub data Move (n : ℕ) (r : Runner S D) : Runner S D → Type 0 where
    track :
        (id : Int64) (visitor : Bytes)
        → r.requests ≡ true
        → Move n r (record r {
          events = enqueue id visitor r.events;
          accepted =
              if has_room r.events
              then (record { link_id = id; visitor = visitor }) ∷ r.accepted
              else r.accepted;
        })
    work : (i : ℕ) {u : Runner S D} → i < n → Work r i u → Move n r u
    tick :
        (fuel : ℕ) {w : Flow S D}
        → r.ticking ≡ true
        → EndsIn (flush redis add_views fuel 0 r.flow) w
        → Move n r (record r { flow = w })
    stop_ticking : r.phase ≡ cancelled → Move n r (record r { ticking = false })
    shutdown : r.phase ≡ listening → Move n r (record r { requests = false; phase = shut })
    shutdown_failed : r.phase ≡ listening → Move n r (record r { phase = shut })
    stop_counter : r.phase ≡ shut → Move n r (record r { phase = cancelled })
    last_flush :
        (fuel : ℕ) {w : Flow S D}
        → r.phase ≡ cancelled
        → r.ticking ≡ false
        → ((i : ℕ) → i < n → r.workers i ≡ gone)
        → EndsIn (flush redis add_views fuel 0 r.flow) w
        → Move n r (record r { flow = w; phase = finished })

  abbrev pub at_first : Flow S D → Runner S D
  at_first w = record {
    events = [];
    flow = w;
    workers = λ _. serving;
    ticking = true;
    requests = true;
    phase = listening;
    accepted = [];
    handled = [];
  }

  pub data Runs (n : ℕ) (w : Flow S D) : Runner S D → Type 0 where
    begun : Runs n w (at_first w)
    moved : {r : Runner S D} {u : Runner S D} → Runs n w r → Move n r u → Runs n w u
