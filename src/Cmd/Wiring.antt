-- ===== src/Cmd/Wiring.antt =====
-- cmd/api/main.go: which implementation stands behind each port. Each part of the state has tables
-- or keys of its own.
pub mod Closing
use youpass_share_service.Base.{
  Bool, Bytes, Int64, List, Option, codes, if◌then◌else◌, none, not, some, ℕ,
}
use youpass_share_service.Domain.Error.{Error, unavailable}
use youpass_share_service.Domain.Link.{Snapshot}
use youpass_share_service.Domain.Viewer.{key}
use youpass_share_service.Outcome.{Act, ret, throw}
use youpass_share_service.Share.Ports.{ViewTracker}
use youpass_share_service.Share.Service.{Service}
use youpass_share_service.Share.Setup.{Packages, System, new_service}
use youpass_share_service.Postgres.{
  Statements, postgres_content, postgres_links, postgres_submissions,
}
use youpass_share_service.Redis.{Redis}
use youpass_share_service.Redis.LinkCache.{Codec, redis_links}
use youpass_share_service.Redis.Snapshots.{
  CachedReader, Reader, SnapshotCodec, cached_reader, delete_submission,
}
use youpass_share_service.Redis.RateLimiter.{WindowCounter, allow_window}
use youpass_share_service.Redis.ViewCounter.{Counters, ViewEvent, enqueue, pending_views}
use youpass_share_service.Token.{Jwt, Manager}
use youpass_share_service.Config.{Config, is_production}
use youpass_share_service.Http.Router.{Deps, Site}

-- The view counter's buffer, its keys in Redis, and today's date.
pub record Tracker (S : Type 0) : Type 0 where
  pub events : List ViewEvent
  pub counters : S
  pub today : Bytes

-- The limiter's keys in Redis, and the time in seconds.
pub record Windows (S : Type 0) : Type 0 where
  pub counts : S
  pub unix : ℕ

-- PostgreSQL with the links in D and the submissions in K, Redis in S, and the packages.
pub record Clients (D K S : Type 0) : Type 0 where
  pub links_db : Statements D
  pub submissions_db : Statements K
  pub redis : Redis S
  pub counting : Counters S
  pub windows : WindowCounter S
  pub link_codec : Codec
  pub snapshot_codec : SnapshotCodec
  pub rand : ℕ → ℕ
  pub snapshot_flight : Bytes → Act (Reader S K) Snapshot → Act (Reader S K) Snapshot
  pub packages : Packages D S (Reader S K) (Tracker S)
  pub jwt : Jwt

module _ {D K S : Type 0} (c : Clients D K S) (cfg : Config) where
  abbrev pub content : CachedReader S K
  content = record {
    next = postgres_content c.submissions_db;
    redis = c.redis;
    codec = c.snapshot_codec;
    flight = c.snapshot_flight;
  }

  abbrev track_view : Int64 → Bytes → Tracker S → Tracker S
  track_view id visitor t = record t { events = enqueue id visitor t.events }

  abbrev pending_view : Int64 → Act (Tracker S) (Int64 × Int64)
  pending_view id t = elim (pending_views c.counting t.today id t.counters) [
    | ret r s ↦ ret r (record t { counters = s })
    | throw e s ↦ throw e (record t { counters = s })
  ]

  abbrev pub view_counter : ViewTracker (Tracker S)
  view_counter = record { track = track_view; pending = pending_view }

  -- The service of the share use cases.
  unfoldable pub share_service : Service D S (Reader S K) (Tracker S) System
  share_service = new_service c.packages (record {
    links = postgres_links c.links_db;
    cache = redis_links c.redis c.link_codec c.rand;
    content = cached_reader content;
    views = view_counter;
    base_url = cfg.share_base_url;
    generator = none;
    clock = none;
  })

  abbrev manager : Manager
  manager = record { secret = cfg.jwt_secret; ttl = cfg.jwt_ttl }

  abbrev allow_in : Bytes → Int64 → ℕ → Windows S → (Bool × Option Error) × Windows S
  allow_in key limit seconds w =
      let (answer, s) = allow_window c.windows w.unix key limit seconds w.counts in
      (answer, record w { counts = s })

  abbrev Whole : Type 0
  Whole = Site D S (Reader S K) (Tracker S) System (Windows S)

  -- The router's part: `ping_db` and `ping_redis` say whether the two answer.
  unfoldable pub router_deps :
      (Whole → Bool) → (Whole → Bool) → Deps D S (Reader S K) (Tracker S) System (Windows S)
  router_deps ping_db ping_redis = record {
    share = share_service;
    submission = some (delete_submission content (postgres_submissions c.submissions_db));
    jwt = c.jwt;
    tokens = manager;
    allow = allow_in;
    rate_limit_per_min = cfg.rate_limit_per_min;
    ready_check = some (λ s.
        if not (ping_db s)
        then some (codes "postgres unavailable")
        else if not (ping_redis s)
        then some (codes "redis unavailable")
        else none);
    enable_dev_token = not (is_production cfg);
    trusted_proxies = cfg.trusted_proxies;
  }
