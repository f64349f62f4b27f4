-- ===== src/Tests/Windows.antt =====
-- The theorem on the rate limiter of Redis, on counters in memory.
use youpass_share_service.Base.{
  Bool-cases, Bytes, Dict, List, Option, [], arith, bytes_eq, bytes_eq_refl, codes, eq_of_bytes_eq,
  if◌then◌else◌, inl, inr, insert, lookup, lookup-insert, ltb, ltb→lt, none, refl, some, sym, ℕ,
  ◌+◌, ◌<◌, ◌^◌, ◌∷◌, ◌≡◌, ◌≢◌, ◌≤◌, nat_eq, bytes_eq_instance,
}
use youpass_share_service.Base.Decimal.{}
use youpass_share_service.Domain.Error.{foreign}
use youpass_share_service.Outcome.{Post, ret, throw}
use youpass_share_service.Redis.RateLimiter.{WindowCounter}
use youpass_share_service.Redis.RateLimiter.Bounding.{Call, WindowLaws}

abbrev Counts : Type 0
Counts = Dict Bytes ℕ

abbrev counted : Option ℕ → ℕ
counted none = 0
counted (some n) = n

abbrev count_at : Counts → Bytes → ℕ
count_at s k = counted (lookup k s)

abbrev plain_windows : WindowCounter Counts
plain_windows = record {
  incr_expire = λ k ttl s.
      if ltb (count_at s k + 1) (2 ^ 63)
      then ret (count_at s k + 1) (insert k (count_at s k + 1) s)
      else throw (foreign 0) s;
}

counted_up :
    (k : Bytes) (ttl : ℕ) (s : Counts)
    → Post
        (plain_windows.incr_expire k ttl s)
        (λ n s'.
          (n ≡ count_at s k + 1)
          × (n < 2 ^ 63)
          × (count_at s' k ≡ n)
          × ((d : Bytes) → d ≢ k → count_at s' d ≡ count_at s d))
        (λ e s'. (d : Bytes) → count_at s d ≤ count_at s' d)
counted_up k ttl s = elim (Bool-cases (ltb (count_at s k + 1) (2 ^ 63))) [
  | inr q ↦ rw (q) (λ d. omega arith)
  | inl q ↦ rw (q) (refl, ltb→lt _ _ q, at_key, elsewhere)
]
  where
    at_key : count_at (insert k (count_at s k + 1) s) k ≡ count_at s k + 1
    at_key = rw (lookup-insert k k (count_at s k + 1) s, bytes_eq_refl k) refl

    elsewhere : (d : Bytes) → d ≢ k → count_at (insert k (count_at s k + 1) s) d ≡ count_at s d
    elsewhere d n = elim (Bool-cases (bytes_eq k d)) [
      | inl q ↦ absurd (n (sym (eq_of_bytes_eq k d q)))
      | inr q ↦ rw (lookup-insert k d (count_at s k + 1) s, q) refl
    ]

abbrev window_laws : WindowLaws plain_windows
window_laws = record { count = count_at; added = counted_up }

abbrev call_at : ℕ → Call
call_at t = record { caller = codes "share:10.0.0.1"; unix = t }

abbrev calls : List Call
calls = call_at 60 ∷ call_at 61 ∷ call_at 90 ∷ call_at 120 ∷ []

abbrev visitor : Bytes
visitor = codes "share:10.0.0.1"
