-- ===== src/Share/Setup.antt =====
-- usecase/share/service.go: NewService, with its defaults.
use youpass_share_service.Base.{Bytes, List, Option, [], none, some}
use youpass_share_service.Domain.Error.{unavailable}
use youpass_share_service.Domain.Link.{Link, Time}
use youpass_share_service.Domain.Viewer.{Unicode}
use youpass_share_service.Domain.Code.{Read, broken, drawn, new_code, starved}
use youpass_share_service.Outcome.{Act, ret, throw}
use youpass_share_service.Share.Ports.{ContentReader, LinkCache, LinkRepository, ViewTracker}
use youpass_share_service.Share.Service.{Service, World}

-- What crypto/rand will deliver, and the time.
pub record System : Type 0 where
  pub reads : List Read
  pub time : Time

-- domain.NewCode. Where the list of reads ends the run is cut off, with a fault.
unfoldable pub system_code : Act System Bytes
system_code g = elim (new_code g.reads) [
  | drawn code left ↦ ret code (record g { reads = left })
  | broken e left ↦ throw e (record g { reads = left })
  | starved ↦ throw unavailable (record g { reads = [] })
]

-- `generator`, the field NewCode, and `clock` may be nil.
pub record ShareDeps (R C K V : Type 0) : Type 0 where
  pub links : LinkRepository R
  pub cache : LinkCache C
  pub content : ContentReader K
  pub views : ViewTracker V
  pub base_url : Bytes
  pub generator : Option (Act System Bytes)
  pub clock : Option (System → Time)

-- The packages that the service calls.
pub record Packages (R C K V : Type 0) : Type 0 where
  pub flight : Bytes → Act (World R C K V System) Link → Act (World R C K V System) Link
  pub sha256 : Bytes → Bytes
  pub unicode : Unicode

unfoldable pub new_service :
    {R C K V : Type 0} → Packages R C K V → ShareDeps R C K V → Service R C K V System
new_service p d = record {
  links = d.links;
  cache = d.cache;
  content = d.content;
  views = d.views;
  base_url = d.base_url;
  new_code = elim d.generator [ none ↦ system_code | some f ↦ f ];
  now = elim d.clock [ none ↦ (λ g. g.time) | some f ↦ f ];
  flight = p.flight;
  sha256 = p.sha256;
  unicode = p.unicode;
}
