-- ===== src/Share/Ports.antt =====
-- usecase/share/ports.go and dto.go: the interfaces that the use cases call, over the state S of
-- what stands behind them, and the data that goes in and out. A context is not modelled: a
-- deadline that passes is one of the errors that a port may return.
use youpass_share_service.Base.{Bool, Bytes, Int64, Option, ℕ, nat_eq, bytes_eq_instance}
use youpass_share_service.Domain.Link.{Link, ResourceType, Snapshot, Status, Time}
use youpass_share_service.Outcome.{Act}

-- The calls of the source of truth. `insert` returns the link with the ID and CreatedAt that the
-- Go method writes through its argument.
pub record LinkRepository (S : Type 0) : Type 0 where
  pub insert : Link → Act S Link
  pub find_by_code : Bytes → Act S Link
  pub find_by_resource : ResourceType → Int64 → Act S Link
  pub find_owned : Bytes → Int64 → Act S Link
  pub update_status : Bytes → Int64 → Status → Act S Link
  pub soft_delete : Bytes → Int64 → Act S (Unit {0})

pub record LinkCache (S : Type 0) : Type 0 where
  pub get : Bytes → Act S Link
  pub set : Link → Act S (Unit {0})
  pub set_not_found : Bytes → Act S (Unit {0})
  pub invalidate : Bytes → Act S (Unit {0})

pub record ContentReader (S : Type 0) : Type 0 where
  pub is_owner : ResourceType → Int64 → Int64 → Act S Bool
  pub snapshot : ResourceType → Int64 → Act S Snapshot

-- `track` has no result, and `pending` gives the views that wait and today's unique viewers.
pub record ViewTracker (S : Type 0) : Type 0 where
  pub track : Int64 → Bytes → S → S
  pub pending : Int64 → Act S (Int64 × Int64)

pub record CreateInput : Type 0 where
  pub owner_id : Int64
  pub resource_type : ResourceType
  pub resource_id : Int64
  pub expires_at : Option Time

pub record SharedView : Type 0 where
  pub code : Bytes
  pub owner_name : Bytes
  pub kind : ResourceType
  pub title : Bytes
  pub content : Bytes
  pub band_score : ℕ
  pub feedback : Bytes
  pub shared_at : Time

pub record Stats : Type 0 where
  pub total_views : Int64
  pub unique_today : Int64
