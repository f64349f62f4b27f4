-- ===== src/Tests.antt =====
-- A concrete share service over the in-memory ports, with runs of its operations.
pub mod Sharing
pub mod Parts
pub mod Api
pub mod Store
pub mod Snapshots
pub mod Flush
pub mod Races
pub mod Rivals
pub mod Router
pub mod Postgres
pub mod Run
pub mod Wiring
pub mod Windows
pub mod Running
pub mod Config
pub mod Datastore
use youpass_share_service.Base.{
  Bytes, List, [], bytes_eq, codes, false, insert, lookup, none, refl, some, true, ◌∷◌, ◌≡◌, nat_eq,
  bytes_eq_instance,
}
use youpass_share_service.Domain.Error.{err_is, unavailable}
use youpass_share_service.Domain.Link.{
  Link, Time, new_link, resource_valid, resource_writing, status_active,
}
use youpass_share_service.Domain.Viewer.{Viewer}
use youpass_share_service.Outcome.{Act, ret, throw}
use youpass_share_service.Share.Ports.{CreateInput}
use youpass_share_service.Share.Service.{Service, World, attempts, create, insert_step, obtain}
use youpass_share_service.Share.Coherence.{IsLawful}
use youpass_share_service.Memory.Repository.{
  Repository, find_by_resource, first_shared, insert_link, memory_links, new_repository,
}
use youpass_share_service.Memory.Repository.Laws.{memory_links_lawful}
use youpass_share_service.Memory.Cache.{Cache, memory_cache, new_cache}
use youpass_share_service.Memory.Cache.Laws.{memory_cache_lawful}
use youpass_share_service.Memory.Content.{Content, is_owner, memory_content}
use youpass_share_service.Memory.Views.{Views, memory_views}

-- The codes that the generator will draw, and the time.
pub record Env : Type 0 where
  pub codes_left : List Bytes
  pub time : Time

abbrev next_code : Act Env Bytes
next_code g = elim g.codes_left [
  | [] ↦ throw unavailable g
  | c ∷ cs ↦ ret c (record g { codes_left = cs })
]

abbrev pub sv : Service Repository Cache Content Views Env
sv = record {
  links = memory_links;
  cache = memory_cache;
  content = memory_content;
  views = memory_views;
  base_url = codes "https://youpass.vn/s/";
  new_code = next_code;
  now = λ g. g.time;
  flight = λ k f. f;
  sha256 = λ s. s;
  unicode = record { map_lower = λ s. s; trim = λ s. s };
}

abbrev pub laws : IsLawful sv
laws = record { repo = memory_links_lawful; cache = memory_cache_lawful; alone = λ k f w. refl }

abbrev pub code_a : Bytes
code_a = codes "aaaaaaaa"

abbrev pub code_b : Bytes
code_b = codes "bbbbbbbb"

abbrev pub World₀ : Type 0
World₀ = World Repository Cache Content Views Env

abbrev pub start : World₀
start = record {
  repo = new_repository 10;
  cached = new_cache;
  submissions = record { owners = (101, 1) ∷ (102, 1) ∷ []; deleted = [] };
  counters = record { tracked = 0; seen = []; pending = []; unique = [] };
  env = record { codes_left = code_a ∷ code_b ∷ []; time = 10 };
}

abbrev pub essay : CreateInput
essay = record {
  owner_id = 1;
  resource_type = resource_writing;
  resource_id = 101;
  expires_at = some 20;
}

abbrev pub guest : Viewer
guest = record { user_id = 0; visitor_id = codes "visitor-1"; user_agent = codes "Mozilla/5.0" }

abbrev pub essay_link : Link
essay_link = record {
  id = 1;
  code = code_a;
  owner_id = 1;
  resource_type = resource_writing;
  resource_id = 101;
  status = status_active;
  expires_at = some 20;
  deleted_at = none;
  view_count = 0;
  created_at = 10;
}

-- After the essay is shared.
abbrev pub shared : World₀
shared = record start {
  repo = record {
    links = (code_a, essay_link) ∷ [];
    next_id = 1;
    find_calls = 0;
    fail_add_views = false;
    clock = 10;
  };
  env = record { codes_left = code_b ∷ []; time = 10 };
}

pub created : create sv essay start ≡ ret (essay_link, true) shared
unfolding create obtain attempts insert_step resource_valid is_owner find_by_resource first_shared
    insert_link new_link err_is lookup insert bytes_eq
created = refl
