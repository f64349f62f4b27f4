-- ===== src/Cmd/Wiring/Closing.antt =====
-- cmd/api/main.go: the wired service keeps the contracts of its ports, so that what it revokes is
-- gone.
use youpass_share_service.Base.{Bool, Bytes, Int64, Option, ◌≡◌}
use youpass_share_service.Domain.Error.{}
use youpass_share_service.Domain.Link.{Link, Time}
use youpass_share_service.Domain.Viewer.{}
use youpass_share_service.Outcome.{Act}
use youpass_share_service.Share.Ports.{}
use youpass_share_service.Share.Contract.{}
use youpass_share_service.Share.Service.{World}
use youpass_share_service.Share.Setup.{System, new_service}
use youpass_share_service.Share.Coherence.{IsCoherent, IsLawful}
use youpass_share_service.Share.Revoke.{}
use youpass_share_service.Postgres.{}
use youpass_share_service.Postgres.Laws.{StatementLaws}
use youpass_share_service.Postgres.Keeping.{postgres_links_lawful}
use youpass_share_service.Redis.{RedisLaws}
use youpass_share_service.Redis.LinkCache.{}
use youpass_share_service.Redis.LinkCache.Laws.{CodecLaws, redis_cache_lawful}
use youpass_share_service.Redis.Snapshots.{Reader}
use youpass_share_service.Config.{Config}
use youpass_share_service.Redis.RateLimiter.{}
use youpass_share_service.Http.{Request, Response}
use youpass_share_service.Http.Router.{Site, routes, serve}
use youpass_share_service.Http.Router.Serving.{KeepsOrNames, served_rows}
use youpass_share_service.Http.Router.Revoking.{}
use youpass_share_service.Cmd.Wiring.{Clients, Tracker, Windows, router_deps, share_service}

-- PostgreSQL, Redis and encoding/json as documented, and no other call of singleflight under way.
pub record ClientLaws {D K S : Type 0} (c : Clients D K S) : Type 1 where
  pub database : StatementLaws c.links_db
  pub redis : RedisLaws c.redis
  pub codec : CodecLaws c.link_codec
  pub alone :
      (k : Bytes) (f : Act (World D S (Reader S K) (Tracker S) System) Link)
      (w : World D S (Reader S K) (Tracker S) System)
      → c.packages.flight k f w ≡ f w

module _ {D K S : Type 0} (c : Clients D K S) (laws : ClientLaws c) (cfg : Config) where
  abbrev pub share_service_lawful : IsLawful (share_service c cfg)
  unfolding share_service new_service
  share_service_lawful = record {
    repo = postgres_links_lawful c.links_db laws.database;
    cache = redis_cache_lawful c.redis laws.redis c.link_codec laws.codec c.rand;
    alone = laws.alone;
  }

  abbrev Whole : Type 0
  Whole = Site D S (Reader S K) (Tracker S) System (Windows S)

  -- The laws of the service that the router has.
  abbrev pub router_lawful :
      (ping_db ping_redis : Whole → Bool) → IsLawful (router_deps c cfg ping_db ping_redis).share
  unfolding router_deps
  router_lawful ping_db ping_redis = share_service_lawful

  -- Of the router that main builds, with PostgreSQL, Redis and encoding/json as documented and no
  -- other call of singleflight under way, from a coherent state: whichever route serves a request,
  -- every row of the links is as before, or is now the row of a link whose owner is the user, with
  -- a positive ID, that the request's bearer token names.
  pub production_rows :
      (ping_db ping_redis : Whole → Bool) (add_days : Time → Int64 → Time)
      (bind : Bytes → Bytes → Option Bytes) (unrouted : Response) (fresh method path : Bytes)
      (req : Request) (s : Whole) (code : Bytes)
      → IsCoherent
          (router_deps c cfg ping_db ping_redis).share
          (router_lawful ping_db ping_redis)
          s.world
      → KeepsOrNames
          (router_deps c cfg ping_db ping_redis)
          (router_lawful ping_db ping_redis)
          add_days
          req
          s
          (serve bind unrouted
            (routes (router_deps c cfg ping_db ping_redis) add_days fresh)
            method
            path
            req
            s).1
          code
  production_rows ping_db ping_redis add_days bind unrouted fresh method path req s code coherent =
      served_rows (router_deps c cfg ping_db ping_redis) (router_lawful ping_db ping_redis) add_days
        bind unrouted fresh method path req s code coherent
