-- ===== src/Redis/ViewCounter.antt =====
-- view_counter.go: views go through a buffer into counters in Redis, and from there in batches
-- into the store. The goroutines of Run are not modelled: they call `handle_event` and `flush`.
pub mod Conserving
pub mod Draining
pub mod Restoring
pub mod Rounds
pub mod Running
pub mod Flushing
pub mod Taking
use youpass_share_service.Base.{
  Bool, Bytes, Dict, Int64, List, [], add64, codes, eqb, false, if◌then◌else◌, inl, inr, insert,
  is_positive, length, ltb, none, not, some, suc, total, true, zero, ℕ, ◌++◌, ◌∷◌, ◌⊎◌, nat_eq,
  bytes_eq_instance,
}
use youpass_share_service.Base.Decimal.{format_int}
use youpass_share_service.Base.Parse.{parse_int}
use youpass_share_service.Domain.Error.{Error, err_is}
use youpass_share_service.Outcome.{Act, final, ignore, ret, throw, ◌>>=◌, ◌>>◌}

abbrev pub event_buffer : ℕ
event_buffer = 10000

abbrev pub dedupe_window : ℕ
dedupe_window = 1800

abbrev pub unique_ttl : ℕ
unique_ttl = 2592000

abbrev pub flush_batch : ℕ
flush_batch = 1000

abbrev pub dirty_key : Bytes
dirty_key = codes "share:dirty"

unfoldable pub views_key : Int64 → Bytes
views_key id = codes "share:{" ++ (format_int id ++ codes "}:views")

unfoldable pub view_seen_key : Int64 → Bytes → Bytes
view_seen_key id visitor = codes "share:{" ++ (format_int id ++ (codes "}:seen:" ++ visitor))

unfoldable pub unique_key : Int64 → Bytes → Bytes
unique_key id day = codes "share:{" ++ (format_int id ++ (codes "}:uv:" ++ day))

-- The commands of Redis that the counter uses. `nil_error` is redis.Nil, `number_error` what
-- Int64 reports of a text that is no number, and `eval` runs a script as one command.
pub record Counters (S : Type 0) : Type 0 where
  pub nil_error : Error
  pub number_error : Error
  pub eval : Act S ℕ → Act S ℕ
  pub set_nx : Bytes → ℕ → Act S Bool
  pub incr : Bytes → Act S Int64
  pub pf_add : Bytes → Bytes → Act S (Unit {0})
  pub expire : Bytes → ℕ → Act S (Unit {0})
  pub s_add : Bytes → List Bytes → Act S (Unit {0})
  pub s_pop : Bytes → ℕ → Act S (List Bytes)
  pub get_del : Bytes → Act S Bytes
  pub get : Bytes → Act S Bytes
  pub incr_by : Bytes → Int64 → Act S (Unit {0})
  pub pf_count : Bytes → Act S Int64

pub record ViewEvent : Type 0 where
  pub link_id : Int64
  pub visitor : Bytes

-- `Track`: a full buffer drops the event.
unfoldable pub enqueue : Int64 → Bytes → List ViewEvent → List ViewEvent
enqueue id visitor events =
    if ltb (length events) event_buffer
    then events ++ (record { link_id = id; visitor = visitor }) ∷ []
    else events

-- A reply that should be a number.
abbrev pub int64_of : Error → Bytes → Error ⊎ Int64
int64_of bad raw = elim (parse_int raw) [ none ↦ inl bad | some n ↦ inr n ]

module _ {S : Type 0} (redis : Counters S) where
  -- The Lua script; an error of a call ends it.
  unfoldable pub track_script : Bytes → Bytes → Bytes → ℕ → Bytes → ℕ → Act S ℕ
  track_script seen views unique window visitor ttl = do
    fresh ← redis.set_nx seen window
    counted ← if fresh then (do redis.incr views; ret 1) else ret 0
    redis.pf_add unique visitor
    redis.expire unique ttl
    ret counted

  unfoldable pub record_view : Bytes → Int64 → Bytes → Act S Bool
  unfolding track_script view_seen_key views_key unique_key
  record_view day id visitor = do
    counted ← redis.eval (
        track_script (view_seen_key id visitor) (views_key id) (unique_key id day) dedupe_window
          visitor unique_ttl)
    if not (eqb counted 1)
        then ret false
        else (do redis.s_add dirty_key (format_int id ∷ []); ret true)

  -- `handle`: an error is logged.
  unfoldable pub handle_event : Bytes → ViewEvent → Act S (Unit {0})
  unfolding record_view
  handle_event day e = ignore (record_view day e.link_id e.visitor)

  -- The pipeline of GETDEL, with the reply of each command by link.
  unfoldable pub take_counts :
      List Bytes → Dict Int64 (Error ⊎ Int64) → S → Dict Int64 (Error ⊎ Int64) × S
  unfolding parse_int views_key
  take_counts [] replies s = (replies, s)
  take_counts (raw ∷ ids) replies s = elim (parse_int raw) [
    | none ↦ take_counts ids replies s
    | some id ↦ elim (redis.get_del (views_key id) s) [
      | ret v s' ↦ take_counts ids (insert id (int64_of redis.number_error v) replies) s'
      | throw e s' ↦ take_counts ids (insert id (inl e) replies) s'
    ]
  ]

  -- The views to write: what is above zero.
  unfoldable pub deltas_of : Dict Int64 (Error ⊎ Int64) → Dict Int64 Int64
  deltas_of [] = []
  deltas_of ((id, inr n) ∷ rest) =
      let deltas = deltas_of rest in if is_positive n then (id, n) ∷ deltas else deltas
  deltas_of ((id, inl e) ∷ rest) = deltas_of rest

  -- The links whose command failed.
  unfoldable pub retries_of : Dict Int64 (Error ⊎ Int64) → List Bytes
  retries_of [] = []
  retries_of ((id, inr n) ∷ rest) = retries_of rest
  retries_of ((id, inl e) ∷ rest) =
      let ids = retries_of rest in if err_is e redis.nil_error then ids else format_int id ∷ ids

  -- The pipeline of `restore`, whose errors are logged.
  unfoldable pub restore : Dict Int64 Int64 → Act S (Unit {0})
  unfolding views_key
  restore [] = ret tt
  restore ((id, n) ∷ deltas) = do
    ignore (redis.incr_by (views_key id) n)
    ignore (redis.s_add dirty_key (format_int id ∷ []))
    restore deltas

  unfoldable pub pending_views : Bytes → Int64 → Act S (Int64 × Int64)
  unfolding views_key unique_key parse_int
  pending_views day id s =
      let zero_or : Error → Error ⊎ Int64 =
        λ e. if err_is e redis.nil_error then inr 0 else inl e in
      let (p, s₁) : (Error ⊎ Int64) × S = elim (redis.get (views_key id) s) [
        | ret v s' ↦
            (elim (int64_of redis.number_error v) [ inr n ↦ inr n | inl e ↦ zero_or e ], s')
        | throw e s' ↦ (zero_or e, s')
      ] in
      let unique = redis.pf_count (unique_key id day) s₁ in
      elim p [
        | inl e ↦ throw e (final unique)
        | inr n ↦ elim unique [ ret u s' ↦ ret (n, u) s' | throw e s' ↦ throw e s' ]
      ]

-- Redis and the store of the views.
pub record Flow (S D : Type 0) : Type 0 where
  pub counters : S
  pub stored : D

abbrev pub sum_of : Dict Int64 Int64 → Int64
sum_of [] = 0
sum_of ((id, n) ∷ deltas) = add64 n (sum_of deltas)

-- How `flush` ends: `unfinished` if it still goes on when the fuel is spent.
pub data Flushed (W : Type 0) : Type 0 where
  complete : Int64 → W → Flushed W
  aborted : Error → Int64 → W → Flushed W
  unfinished : Flushed W

module _ {S D : Type 0} (redis : Counters S) (add_views : Dict Int64 Int64 → Act D (Unit {0})) where
  -- `if len(retry) > 0 { SAdd }`, whose error is dropped.
  unfoldable pub mark_again : List Bytes → S → S
  mark_again [] s = s
  mark_again (r ∷ rs) s = final (redis.s_add dirty_key (r ∷ rs) s)

  -- From the batch's deltas on: `more` is the next round, with the total so far.
  unfoldable pub store_batch :
      Dict Int64 Int64
      → Int64
      → (Int64 → Flow S D → Flushed (Flow S D))
      → Flow S D
      → Flushed (Flow S D)
  unfolding restore
  store_batch [] total more w = more total w
  store_batch (d ∷ deltas) total more w = elim (add_views (d ∷ deltas) w.stored) [
    | ret _ db ↦ more (add64 total (sum_of (d ∷ deltas))) (record w { stored = db })
    | throw e db ↦
        aborted e total
          (record { counters = final (restore redis (d ∷ deltas) w.counters); stored = db })
  ]

  -- The round on a batch that is not empty.
  unfoldable pub flush_ids :
      List Bytes → Int64 → (Int64 → Flow S D → Flushed (Flow S D)) → Flow S D → Flushed (Flow S D)
  unfolding take_counts deltas_of retries_of mark_again store_batch
  flush_ids ids total more w =
      let (replies, s) = take_counts redis ids [] w.counters in
      store_batch (deltas_of redis replies) total
        (if ltb (length ids) flush_batch then complete else more)
        (record w { counters = mark_again (retries_of redis replies) s })

  unfoldable pub flush : ℕ → Int64 → Flow S D → Flushed (Flow S D)
  unfolding flush_ids
  flush zero total w = unfinished
  flush (suc fuel) total w = elim (redis.s_pop dirty_key flush_batch w.counters) [
    | throw e s ↦
        if err_is e redis.nil_error
        then complete total (record w { counters = s })
        else aborted e total (record w { counters = s })
    | ret [] s ↦ complete total (record w { counters = s })
    | ret (raw ∷ ids) s ↦ flush_ids (raw ∷ ids) total (flush fuel) (record w { counters = s })
  ]
