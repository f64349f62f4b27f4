-- ===== src/Memory/Views.antt =====
-- memstore.go: ViewTracker.
pub mod Counting
use youpass_share_service.Base.{
  Bool, Bytes, Dict, Int64, [], add64, false, if◌then◌else◌, insert, length, lookup, none, some,
  true, ◌++◌, ◌∷◌, nat_eq, bytes_eq_instance,
}
use youpass_share_service.Base.Decimal.{format_int}
use youpass_share_service.Domain.Error.{}
use youpass_share_service.Outcome.{Act, ret}
use youpass_share_service.Share.Ports.{ViewTracker}

pub record Views : Type 0 where
  pub tracked : Int64
  pub seen : Dict Bytes Bool
  pub pending : Dict Int64 Int64
  pub unique : Dict Int64 (Dict Bytes Bool)

unfoldable pub new_views : Views
new_views = record { tracked = 0; seen = []; pending = []; unique = [] }

-- t.unique[id], with the nil map of a missing key
abbrev pub visitors : Int64 → Views → Dict Bytes Bool
visitors id t = elim (lookup id t.unique) [ none ↦ [] | some m ↦ m ]

abbrev pub waiting : Int64 → Views → Int64
waiting id t = elim (lookup id t.pending) [ none ↦ 0 | some n ↦ n ]

-- fmt.Sprintf("%d:%s", linkID, visitor)
unfoldable pub seen_key : Int64 → Bytes → Bytes
seen_key id visitor = format_int id ++ (b':' ∷ visitor)

abbrev pub is_seen : Bytes → Views → Bool
is_seen k t = elim (lookup k t.seen) [ none ↦ false | some b ↦ b ]

unfoldable pub track : Int64 → Bytes → Views → Views
track id visitor t =
    let t' = record t {
      tracked = add64 t.tracked 1;
      unique = insert id (insert visitor true (visitors id t)) t.unique;
    } in
    let k = seen_key id visitor in
    if is_seen k t' then t' else record t' {
      seen = insert k true t'.seen;
      pending = insert id (add64 (waiting id t') 1) t'.pending;
    }

unfoldable pub pending_of : Int64 → Act Views (Int64 × Int64)
pending_of id t = ret (waiting id t, length (visitors id t)) t

abbrev pub memory_views : ViewTracker Views
memory_views = record { track = track; pending = pending_of }
