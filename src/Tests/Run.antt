-- ===== src/Tests/Run.antt =====
-- The theorem on the run of the process, on a host whose server cannot listen.
use youpass_share_service.Base.{[], codes, none, suc, true, ℕ}
use youpass_share_service.Domain.Error.{foreign}
use youpass_share_service.Outcome.{Act, ret, throw}
use youpass_share_service.Config.{Config}
use youpass_share_service.Datastore.Connecting.{}
use youpass_share_service.Datastore.Migrations.{}
use youpass_share_service.Cmd.Run.{Host}

-- The calls so far.
abbrev done : Act ℕ (Unit {0})
done n = ret tt (suc n)

abbrev host : Host ℕ
host = record {
  joined = λ xs. foreign 0;
  wait = λ n. done;
  postgres = record { parse_url = λ u. done; open_pool = done; ping_pool = done; close_pool = suc };
  redis = record { open_client = λ a p n. suc; ping_client = done; close_client = suc };
  database = record {
    acquire = done;
    release = suc;
    lock = done;
    unlock = suc;
    create_table = done;
    glob = ret [];
    is_applied = λ f. ret true;
    read_file = λ f. ret [];
    begin = done;
    exec = λ q. done;
    record_version = λ f. done;
    commit = done;
    rollback = done;
  };
  set_trusted = λ ps. none;
  count_views = suc;
  listen = throw (foreign 1);
  shutdown = done;
  drain_views = suc;
}

abbrev pub cfg : Config
cfg = record {
  env = codes "production";
  http_addr = codes ":8080";
  database_url = codes "postgres://db";
  redis_addr = codes "redis:6379";
  redis_password = [];
  redis_db = 0;
  jwt_secret = codes "secret";
  jwt_ttl = 900;
  share_base_url = codes "https://youpass.vn/s/";
  flush_interval = 10;
  view_workers = 4;
  rate_limit_per_min = 60;
  trusted_proxies = [];
}
