-- ===== src/Memory/Limiter/Counting.antt =====
-- memstore.go, RateLimiter: how many calls pass.
use youpass_share_service.Base.{
  Bytes, Int64, List, [], add64, arith, bytes_eq, bytes_eq_iff, if◌then◌else◌, lookup,
  lookup-insert, ltb, refl, suc, ℕ, ◌%◌, ◌+◌, ◌<◌, ◌^◌, ◌∷◌, ◌≡◌, nat_eq, bytes_eq_instance,
}
use youpass_share_service.Outcome.{final, ret}
use youpass_share_service.Memory.Limiter.{Limiter, allow, count_of, new_limiter}

-- The limiter after calls with these keys, the latest first.
unfoldable pub allow_all : Int64 → List Bytes → Limiter
unfolding new_limiter
allow_all limit [] = new_limiter
allow_all limit (k ∷ ks) = final (allow k limit (allow_all limit ks))

-- How often a key occurs.
unfoldable pub uses : Bytes → List Bytes → ℕ
uses k [] = 0
uses k (j ∷ ks) = let n = uses k ks in if bytes_eq j k then suc n else n

count_of-allow_all :
    (limit : Int64) (k : Bytes) (ks : List Bytes)
    → count_of k (allow_all limit ks) ≡ uses k ks % 2 ^ 64
unfolding allow_all allow uses lookup
count_of-allow_all limit k [] = refl
count_of-allow_all limit k (j ∷ ks) = ground (
  arith,
  lookup-insert j k (add64 (count_of j (allow_all limit ks)) 1) (allow_all limit ks).counts,
  bytes_eq_iff j k,
  count_of-allow_all limit k ks,
  count_of-allow_all limit j ks,
)

-- After any sequence of calls of `Allow` on a new limiter with one limit below 2 ^ 63, a call with
-- a key is allowed exactly if fewer than limit of the earlier calls had that key, as long as they
-- are fewer than 2 ^ 63 - 1. Other keys have no influence.
pub allow-allow_all :
    (limit : Int64) (k : Bytes) (ks : List Bytes)
    → limit < 2 ^ 63
    → uses k ks + 1 < 2 ^ 63
    → allow k limit (allow_all limit ks) ≡ ret (ltb (uses k ks) limit) (allow_all limit (k ∷ ks))
unfolding allow allow_all
allow-allow_all limit k ks small few = ground (arith, count_of-allow_all limit k ks)
