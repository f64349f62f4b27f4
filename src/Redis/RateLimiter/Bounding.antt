-- ===== src/Redis/RateLimiter/Bounding.antt =====
-- rate_limiter.go: how many calls a window allows.
use youpass_share_service.Base.{
  Bool, Bytes, Int64, List, Option, [], false, if◌then◌else◌, le64, none, some, suc, true, ℕ, ◌&&◌,
  ◌+◌, ◌/◌, ◌<◌, ◌==◌, ◌^◌, ◌∷◌, ◌≡◌, ◌≢◌, ◌≤◌, ◌⊎◌, nat_eq, bytes_eq_instance,
}
use youpass_share_service.Domain.Error.{Error}
use youpass_share_service.Outcome.{Outcome, Post, ret, throw}
use youpass_share_service.Redis.RateLimiter.{WindowCounter, allow_window, window_key}

-- What Redis documents of INCR and EXPIRE: INCR adds one, or fails where that would leave the int64
-- numbers, and a pipeline that fails may have added one. The EXPIRE of a call keeps a key until its
-- window is over.
pub record WindowLaws {S : Type 0} (redis : WindowCounter S) : Type 0 where
  pub count : S → Bytes → ℕ
  pub added :
      (k : Bytes) (ttl : ℕ) (s : S)
      → Post
          (redis.incr_expire k ttl s)
          (λ n s'.
            (n ≡ count s k + 1)
            × (n < 2 ^ 63)
            × (count s' k ≡ n)
            × ((d : Bytes) → d ≢ k → count s' d ≡ count s d))
          (λ e s'. (d : Bytes) → count s d ≤ count s' d)

pub record Call : Type 0 where
  pub caller : Bytes
  pub unix : ℕ

-- Let in at all; let in without an error; and with the error of the pipeline.
abbrev pub let_in : Bool → Option Error → Bool
let_in b e = b

abbrev pub within_limit : Bool → Option Error → Bool
within_limit b none = b
within_limit b (some e) = false

abbrev pub failed : Bool → Option Error → Bool
failed b none = false
failed b (some e) = true

module _ {S : Type 0} (redis : WindowCounter S) (limit : Int64) (seconds : ℕ) (caller : Bytes)
    (unix : ℕ) where
  -- A call of the caller in the window of the time.
  abbrev in_window : Call → Bool
  in_window c = (c.caller == caller) && (c.unix / seconds == unix / seconds)

  -- How many of the caller's calls in the window have an answer that is.
  abbrev pub answered : (Bool → Option Error → Bool) → List Call → S → ℕ
  answered is [] s = 0
  answered is (c ∷ cs) s =
      let ((b, e), s') = allow_window redis c.unix c.caller limit seconds s in
      let rest = answered is cs s' in if is b e && in_window c then suc rest else rest

  abbrev allowed : List Call → S → ℕ
  allowed = answered within_limit

  -- What a call adds, by the reply to its pipeline.
  abbrev counting : Bool → List Call → Outcome S Int64 → ℕ
  counting b cs (ret n s') =
      let rest = allowed cs s' in if le64 n limit && b then suc rest else rest
  counting b cs (throw e s') = allowed cs s'

  -- The answer to a reply of the pipeline.
  abbrev answer_to : Outcome S Int64 → (Bool × Option Error) × S
  answer_to (throw e s') = ((true, some e), s')
  answer_to (ret n s') = ((le64 n limit, none), s')

  module _ (laws : WindowLaws redis) (small : limit < 2 ^ 63) where
    -- The calls that are allowed fit into what the limit leaves.
    abbrev Room : Bytes → ℕ → S → Type 0
    Room w n s = (n ≡ 0) ⊎ (n + laws.count s w ≤ limit)

    abbrev w : Bytes
    w = window_key caller unix seconds
