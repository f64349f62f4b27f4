-- ===== src/Datastore/Connecting.antt =====
-- internal/infrastructure/datastore: ConnectPostgres of postgres.go and ConnectRedis of redis.go.
-- The options of the two clients are constants that their packages read.
use youpass_share_service.Base.{Bytes, Int64, ℕ}
use youpass_share_service.Outcome.{Act, handle, ret, throw, ◌>>◌}
use youpass_share_service.Datastore.{retry}

-- pgxpool, with the select of `retry`: `open_pool` is NewWithConfig.
pub record PoolDriver (S : Type 0) : Type 0 where
  pub parse_url : Bytes → Act S (Unit {0})
  pub open_pool : Act S (Unit {0})
  pub ping_pool : Act S (Unit {0})
  pub close_pool : S → S

-- go-redis: NewClient has no error.
pub record ClientDriver (S : Type 0) : Type 0 where
  pub open_client : Bytes → Bytes → Int64 → S → S
  pub ping_client : Act S (Unit {0})
  pub close_client : S → S

module _ {S : Type 0} (wait : ℕ → Act S (Unit {0})) where
  unfoldable pub connect_postgres : PoolDriver S → Bytes → Act S (Unit {0})
  connect_postgres p url = do
    p.parse_url url
    p.open_pool
    handle (retry p.ping_pool wait) ret (λ e s. throw e (p.close_pool s))

  unfoldable pub connect_redis : ClientDriver S → Bytes → Bytes → Int64 → Act S (Unit {0})
  connect_redis r addr password db s =
      handle (retry r.ping_client wait) ret (λ e s'. throw e (r.close_client s'))
        (r.open_client addr password db s)
