-- ===== src/Tests/Wiring.antt =====
-- The theorem on the production service, over one row, a Redis in memory and plain codecs.
use youpass_share_service.Base.{
  Bool, [], codes, lookup, none, refl, some, true, nat_eq, bytes_eq_instance,
}
use youpass_share_service.Domain.Error.{foreign}
use youpass_share_service.Outcome.{ret}
use youpass_share_service.Share.Setup.{System, new_service}
use youpass_share_service.Share.Coherence.{IsCoherent}
use youpass_share_service.Redis.Snapshots.{Reader}
use youpass_share_service.Redis.ViewCounter.{Counters}
use youpass_share_service.Http.Router.{Site, routes, serve}
use youpass_share_service.Http.Router.Serving.{KeepsOrNames}
use youpass_share_service.Cmd.Wiring.{Clients, Tracker, Windows, router_deps, share_service}
use youpass_share_service.Cmd.Wiring.Closing.{ClientLaws, production_rows, router_lawful}
use youpass_share_service.Tests.{code_a, essay_link}
use youpass_share_service.Tests.Api.{add_days, plain_jwt}
use youpass_share_service.Tests.Store.{
  Store, fetch, plain_codec, plain_codec_laws, plain_redis, store_laws,
}
use youpass_share_service.Tests.Postgres.{Single, single, single_laws}
use youpass_share_service.Tests.Run.{cfg}
use youpass_share_service.Tests.Router.{bind, no_page, signed_visit}

abbrev counters : Counters Store
counters = record {
  nil_error = foreign 0;
  number_error = foreign 1;
  eval = λ m. m;
  set_nx = λ k ttl s. ret true s;
  incr = λ k s. ret 1 s;
  pf_add = λ k v s. ret tt s;
  expire = λ k ttl s. ret tt s;
  s_add = λ k ms s. ret tt s;
  s_pop = λ k n s. ret [] s;
  get_del = λ k s. fetch (lookup k s) s;
  get = λ k s. fetch (lookup k s) s;
  incr_by = λ k n s. ret tt s;
  pf_count = λ k s. ret 0 s;
}

abbrev clients : Clients Single Single Store
clients = record {
  links_db = single;
  submissions_db = single;
  redis = plain_redis;
  counting = counters;
  windows = record { incr_expire = λ k seconds s. ret 1 s };
  link_codec = plain_codec;
  snapshot_codec = record { marshal = λ s. s.content; unmarshal = λ b. none };
  rand = λ n. n;
  snapshot_flight = λ k f. f;
  packages = record {
    flight = λ k f. f;
    sha256 = λ s. s;
    unicode = record { map_lower = λ s. s; trim = λ s. s };
  };
  jwt = plain_jwt;
}

abbrev client_laws : ClientLaws clients
client_laws = record {
  database = single_laws;
  redis = store_laws;
  codec = plain_codec_laws;
  alone = λ k f w. refl;
}

abbrev up : Site Single Store (Reader Store Single) (Tracker Store) System (Windows Store) → Bool
up s = true

abbrev running : Site Single Store (Reader Store Single) (Tracker Store) System (Windows Store)
running = record {
  world = record {
    repo = some essay_link;
    cached = [];
    submissions = record { store = []; source = none };
    counters = record { events = []; counters = []; today = codes "20260101" };
    env = record { reads = []; time = 10 };
  };
  limits = record { counts = []; unix = 0 };
}

running-IsCoherent :
    IsCoherent
      (router_deps clients cfg up up).share
      (router_lawful clients client_laws cfg up up)
      running.world
unfolding router_deps share_service new_service lookup
running-IsCoherent = record { inv = tt; fits = λ c. tt }

production_rows_example :
    KeepsOrNames
      (router_deps clients cfg up up)
      (router_lawful clients client_laws cfg up up)
      add_days
      signed_visit
      running
      (serve bind no_page
        (routes (router_deps clients cfg up up) add_days (codes "0f"))
        (codes "PATCH")
        code_a
        signed_visit
        running).1
      code_a
production_rows_example =
    production_rows clients client_laws cfg up up add_days bind no_page (codes "0f") (codes "PATCH")
      code_a signed_visit running code_a running-IsCoherent
