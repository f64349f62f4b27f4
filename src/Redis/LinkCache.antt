-- ===== src/Redis/LinkCache.antt =====
-- link_cache.go: links in Redis, and codes that are known to be missing. Metrics are not modelled.
pub mod Laws
use youpass_share_service.Base.{
  Bytes, Int64, Option, codes, if◌then◌else◌, inl, inr, none, some, ℕ, ◌++◌, ◌+◌, ◌-◌, ◌/◌, ◌==◌,
  ◌⊎◌, nat_eq, bytes_eq_instance,
}
use youpass_share_service.Domain.Error.{Error, cache_miss, err_is, link_not_found}
use youpass_share_service.Domain.Link.{Link, Time}
use youpass_share_service.Outcome.{Act, handle, ret, throw}
use youpass_share_service.Share.Ports.{LinkCache}
use youpass_share_service.Redis.{Redis}

abbrev pub link_ttl : ℕ
link_ttl = 3600000000000

abbrev pub not_found_ttl : ℕ
not_found_ttl = 60000000000

abbrev pub not_found_mark : Bytes
not_found_mark = codes "-"

unfoldable pub link_key : Bytes → Bytes
link_key code = codes "share:link:" ++ code

-- `rand` is rand.Int64N.
unfoldable pub with_jitter : (ℕ → ℕ) → ℕ → ℕ
with_jitter rand d = d + rand (d / 10)

pub record LinkRecord : Type 0 where
  pub id : Int64
  pub code : Bytes
  pub owner_id : Int64
  pub resource_type : Bytes
  pub resource_id : Int64
  pub status : Bytes
  pub expires_at : Option Time
  pub deleted_at : Option Time
  pub created_at : Time

unfoldable pub to_record : Link → LinkRecord
to_record l = record {
  id = l.id;
  code = l.code;
  owner_id = l.owner_id;
  resource_type = l.resource_type;
  resource_id = l.resource_id;
  status = l.status;
  expires_at = l.expires_at;
  deleted_at = l.deleted_at;
  created_at = l.created_at;
}

unfoldable pub to_domain : LinkRecord → Link
to_domain r = record {
  id = r.id;
  code = r.code;
  owner_id = r.owner_id;
  resource_type = r.resource_type;
  resource_id = r.resource_id;
  status = r.status;
  expires_at = r.expires_at;
  deleted_at = r.deleted_at;
  view_count = 0;
  created_at = r.created_at;
}

-- encoding/json on a record
pub record Codec : Type 0 where
  pub marshal : LinkRecord → Error ⊎ Bytes
  pub unmarshal : Bytes → Option LinkRecord

module _ {S : Type 0} (redis : Redis S) (codec : Codec) (rand : ℕ → ℕ) where
  -- `Get`, from the value on
  unfoldable pub decode_link : Bytes → Act S Link
  unfolding to_domain
  decode_link raw s =
      if raw == not_found_mark then throw link_not_found s else (elim (codec.unmarshal raw) [
        | none ↦ throw cache_miss s
        | some rec ↦ ret (to_domain rec) s
      ])

  unfoldable pub cached_link : Bytes → Act S Link
  unfolding link_key decode_link
  cached_link code =
      handle (redis.get (link_key code)) decode_link
        λ e. if err_is e redis.nil_error then throw cache_miss else throw e

  unfoldable pub cache_link : Link → Act S (Unit {0})
  unfolding link_key to_record with_jitter
  cache_link l s = elim (codec.marshal (to_record l)) [
    | inl e ↦ throw e s
    | inr b ↦ redis.set (link_key l.code) b (with_jitter rand link_ttl) s
  ]

  unfoldable pub cache_not_found : Bytes → Act S (Unit {0})
  unfolding link_key
  cache_not_found code = redis.set (link_key code) not_found_mark not_found_ttl

  -- `Invalidate`; the second delete runs later, as a step of its own.
  unfoldable pub drop_link : Bytes → Act S (Unit {0})
  unfolding link_key
  drop_link code = redis.del (link_key code)

  abbrev pub redis_links : LinkCache S
  redis_links = record {
    get = cached_link;
    set = cache_link;
    set_not_found = cache_not_found;
    invalidate = drop_link;
  }
