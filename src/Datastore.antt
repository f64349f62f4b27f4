-- ===== src/Datastore.antt =====
-- internal/infrastructure/datastore/postgres.go: the wait for a dependency, and the migrations.
pub mod Migrations
pub mod Retrying
pub mod Connecting
use youpass_share_service.Base.{if◌then◌else◌, leb, suc, zero, ℕ, ◌*◌}
use youpass_share_service.Domain.Error.{Error, unavailable}
use youpass_share_service.Outcome.{Act, ret, throw}

abbrev pub attempts : ℕ
attempts = 10

-- Durations in nanoseconds.
abbrev pub first_delay : ℕ
first_delay = 500000000

abbrev pub max_delay : ℕ
max_delay = 5000000000

-- min(delay*2, 5*time.Second)
abbrev pub next_delay : ℕ → ℕ
next_delay delay = if leb (delay * 2) max_delay then delay * 2 else max_delay

-- `ping` is the dependency's, and `wait` the select on the context and the timer, which fails when
-- the context is done.
module _ {S : Type 0} (ping : Act S (Unit {0})) (wait : ℕ → Act S (Unit {0})) where
  -- The loop, with the attempts that are left and the last error, which the result wraps.
  unfoldable pub retry_from : ℕ → ℕ → Error → Act S (Unit {0})
  retry_from zero delay last s = throw last s
  retry_from (suc left) delay last s = elim (ping s) [
    | ret _ s' ↦ ret tt s'
    | throw e s' ↦ elim (wait delay s') [
      | ret _ t ↦ retry_from left (next_delay delay) e t
      | throw x t ↦ throw x t
    ]
  ]

  -- The loop runs at least once, so `unavailable` is never returned from here.
  unfoldable pub retry : Act S (Unit {0})
  unfolding retry_from
  retry = retry_from attempts first_delay unavailable
