-- ===== src/Memory/Limiter.antt =====
-- memstore.go: RateLimiter.
pub mod Counting
use youpass_share_service.Base.{
  Bool, Bytes, Dict, Int64, [], add64, insert, le64, lookup, none, some, nat_eq, bytes_eq_instance,
}
use youpass_share_service.Outcome.{Act, ret}

pub record Limiter : Type 0 where
  pub counts : Dict Bytes Int64

unfoldable pub new_limiter : Limiter
new_limiter = record { counts = [] }

abbrev pub count_of : Bytes → Limiter → Int64
count_of k l = elim (lookup k l.counts) [ none ↦ 0 | some n ↦ n ]

unfoldable pub allow : Bytes → Int64 → Act Limiter Bool
allow k limit l =
    let n = add64 (count_of k l) 1 in ret (le64 n limit) (record l { counts = insert k n l.counts })
