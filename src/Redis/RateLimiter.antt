-- ===== src/Redis/RateLimiter.antt =====
-- rate_limiter.go: a fixed window on Redis, which all instances share.
pub mod Bounding
use youpass_share_service.Base.{
  Bool, Bytes, Int64, Option, codes, le64, none, some, true, ℕ, ◌++◌, ◌/◌, ◌∷◌,
}
use youpass_share_service.Base.Decimal.{format_int}
use youpass_share_service.Domain.Error.{Error}
use youpass_share_service.Outcome.{Act, ret, throw}

-- The pipeline of INCR and EXPIRE, which gives INCR's reply if no command failed. `unix` is the
-- time in seconds that the call reads.
pub record WindowCounter (S : Type 0) : Type 0 where
  pub incr_expire : Bytes → ℕ → Act S Int64

unfoldable pub window_key : Bytes → ℕ → ℕ → Bytes
window_key key unix seconds = codes "rl:" ++ (key ++ (b':' ∷ format_int (unix / seconds)))

-- `Allow`, with a window in seconds: an error comes with true, and is the caller's to judge.
unfoldable pub allow_window :
    {S : Type 0} → WindowCounter S → ℕ → Bytes → Int64 → ℕ → S → (Bool × Option Error) × S
unfolding window_key
allow_window redis unix key limit seconds s =
    elim (redis.incr_expire (window_key key unix seconds) seconds s) [
      | throw e s' ↦ ((true, some e), s')
      | ret n s' ↦ ((le64 n limit, none), s')
    ]
