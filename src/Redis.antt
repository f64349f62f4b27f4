-- ===== src/Redis.antt =====
-- What internal/adapter/redisstore uses of Redis, which is a parameter: a store of texts by key.
pub mod LinkCache
pub mod RateLimiter
pub mod Snapshots
pub mod ViewCounter
use youpass_share_service.Base.{
  Bytes, Option, if◌then◌else◌, none, some, ℕ, ◌==◌, ◌≡◌, ◌≢◌, ◌⊎◌, nat_eq, bytes_eq_instance,
}
use youpass_share_service.Domain.Error.{Error}
use youpass_share_service.Outcome.{Act, Post}
use youpass_share_service.Share.Contract.{IsFault}

-- `nil_error` is the client's redis.Nil, and `set` takes the time to live in nanoseconds.
pub record Redis (S : Type 0) : Type 0 where
  pub nil_error : Error
  pub get : Bytes → Act S Bytes
  pub set : Bytes → Bytes → ℕ → Act S (Unit {0})
  pub del : Bytes → Act S (Unit {0})

-- The value at key k is v now.
abbrev pub assign : (Bytes → Option Bytes) → Bytes → Option Bytes → Bytes → Option Bytes
assign t k v d = if k == d then v else t d

-- Redis's documented behaviour. A command may fail, and a write that fails may have been done. A
-- key that expires does so between two commands.
pub record RedisLaws {S : Type 0} (redis : Redis S) : Type 0 where
  pub value : S → Bytes → Option Bytes
  pub read :
      (k : Bytes) (s : S)
      → Post
          (redis.get k s)
          (λ v s'. (value s k ≡ some v) × (value s' ≡ value s))
          (λ e s'.
            (((e ≡ redis.nil_error) × (value s k ≡ none)) ⊎ (IsFault e × (e ≢ redis.nil_error)))
            × (value s' ≡ value s))
  pub written :
      (k v : Bytes) (ttl : ℕ) (s : S)
      → Post
          (redis.set k v ttl s)
          (λ _ s'. value s' ≡ assign (value s) k (some v))
          (λ _ s'. (value s' ≡ value s) ⊎ (value s' ≡ assign (value s) k (some v)))
  pub deleted :
      (k : Bytes) (s : S)
      → Post
          (redis.del k s)
          (λ _ s'. value s' ≡ assign (value s) k none)
          (λ _ s'. (value s' ≡ value s) ⊎ (value s' ≡ assign (value s) k none))
