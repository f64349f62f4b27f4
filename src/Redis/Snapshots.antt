-- ===== src/Redis/Snapshots.antt =====
-- content_cache.go: a ContentReader behind a cache of snapshots in Redis, and
-- usecase/submission/service.go, which drops a snapshot when its submission is deleted.
pub mod Answers
pub mod Keeping
use youpass_share_service.Base.{Bool, Bytes, Int64, Option, codes, none, some, ℕ, ◌++◌, ◌∷◌}
use youpass_share_service.Base.Decimal.{format_int}
use youpass_share_service.Domain.Error.{}
use youpass_share_service.Domain.Link.{ResourceType, Snapshot}
use youpass_share_service.Outcome.{Act, handle, ignore, ret, throw, ◌>>=◌, ◌>>◌}
use youpass_share_service.Share.Ports.{ContentReader}
use youpass_share_service.Redis.{Redis}

abbrev pub snapshot_ttl : ℕ
snapshot_ttl = 600000000000

-- fmt.Sprintf("submission:snapshot:%s:%d", rt, id)
unfoldable pub snapshot_key : ResourceType → Int64 → Bytes
snapshot_key rt id = codes "submission:snapshot:" ++ (rt ++ (b':' ∷ format_int id))

-- encoding/json on snapshotRecord, which has the fields of a snapshot. The error of Marshal is
-- dropped, so that `marshal` gives what is left then, an empty text.
pub record SnapshotCodec : Type 0 where
  pub marshal : Snapshot → Bytes
  pub unmarshal : Bytes → Option Snapshot

-- The Redis and the reader behind the cache.
pub record Reader (S K : Type 0) : Type 0 where
  pub store : S
  pub source : K

module _ {S K A : Type 0} where
  abbrev pub on_store : Act S A → Act (Reader S K) A
  on_store m r = elim (m r.store) [
    | ret a s ↦ ret a (record r { store = s })
    | throw e s ↦ throw e (record r { store = s })
  ]

  abbrev pub on_source : Act K A → Act (Reader S K) A
  on_source m r = elim (m r.source) [
    | ret a s ↦ ret a (record r { source = s })
    | throw e s ↦ throw e (record r { source = s })
  ]

-- The fields of `CachedContentReader`; `flight` is the group's Do of x/sync/singleflight.
pub record CachedReader (S K : Type 0) : Type 0 where
  pub next : ContentReader K
  pub redis : Redis S
  pub codec : SnapshotCodec
  pub flight : Bytes → Act (Reader S K) Snapshot → Act (Reader S K) Snapshot

module _ {S K : Type 0} (c : CachedReader S K) where
  unfoldable pub reader_is_owner : ResourceType → Int64 → Int64 → Act (Reader S K) Bool
  reader_is_owner rt id user_id = on_source (c.next.is_owner rt id user_id)

  -- The function that `Snapshot` hands to singleflight.
  unfoldable pub load_snapshot : ResourceType → Int64 → Act (Reader S K) Snapshot
  unfolding snapshot_key
  load_snapshot rt id = do
    snap ← on_source (c.next.snapshot rt id)
    ignore (on_store (c.redis.set (snapshot_key rt id) (c.codec.marshal snap) snapshot_ttl))
    ret snap

  -- A value that cannot be read, a missing one and an error of Redis all lead to the reader.
  unfoldable pub reader_snapshot : ResourceType → Int64 → Act (Reader S K) Snapshot
  unfolding snapshot_key load_snapshot
  reader_snapshot rt id =
      let through = c.flight (snapshot_key rt id) (load_snapshot rt id) in
      handle (on_store (c.redis.get (snapshot_key rt id)))
        (λ raw s. elim (c.codec.unmarshal raw) [ none ↦ through s | some snap ↦ ret snap s ])
        λ e. through

  unfoldable pub drop_snapshot : ResourceType → Int64 → Act (Reader S K) (Unit {0})
  unfolding snapshot_key
  drop_snapshot rt id = on_store (c.redis.del (snapshot_key rt id))

  abbrev pub cached_reader : ContentReader (Reader S K)
  cached_reader = record { is_owner = reader_is_owner; snapshot = reader_snapshot }

-- What the submission service calls.
pub record SubmissionRepository (S : Type 0) : Type 0 where
  pub soft_delete : Int64 → Int64 → Act S ResourceType

-- submission.Service's `Delete`
unfoldable pub delete_submission :
    {S K : Type 0}
    → CachedReader S K
    → SubmissionRepository K
    → Int64
    → Int64
    → Act (Reader S K) (Unit {0})
unfolding drop_snapshot
delete_submission c repo user_id submission_id = do
  rt ← on_source (repo.soft_delete user_id submission_id)
  drop_snapshot c rt submission_id
