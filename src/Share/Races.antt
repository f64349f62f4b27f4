-- ===== src/Share/Races.antt =====
-- service.go (getLink, invalidate) and link_cache.go (Invalidate with its second delete): requests
-- that read one code while its owner changes the link, one access to a store at a time.
pub mod Settling
use youpass_share_service.Base.{Bytes, Int64, Option, none, some, update, ℕ, ◌≡◌, ◌≢◌}
use youpass_share_service.Domain.Error.{Error, link_not_found}
use youpass_share_service.Domain.Link.{Link, Status}
use youpass_share_service.Outcome.{final, ret, throw}
use youpass_share_service.Share.Ports.{LinkCache, LinkRepository}

-- Where a call of getLink stands: before the cache, before the repository, and before it writes to
-- the cache what the repository said.
pub data Reader : Type 0 where
  looking : Reader
  missed : Reader
  holding : Option Link → Reader

-- Where the owner's call stands, with the timer of the second delete.
pub data Writer : Type 0 where
  quiet : Writer
  committed : Writer
  deleted : Writer
  finished : Writer
  given_up : Writer

pub record Race (R C : Type 0) : Type 0 where
  pub rows : R
  pub cached : C
  pub readers : ℕ → Reader
  pub writer : Writer

-- What getLink writes to the cache; an error is logged.
unfoldable pub fill : {C : Type 0} → LinkCache C → Bytes → Option Link → C → C
fill cache c (some l) s = final (cache.set l s)
fill cache c none s = final (cache.set_not_found c s)

-- A reader that has its answer starts again at `looking`, for the next request.
pub data Step {R C : Type 0} (links : LinkRepository R) (cache : LinkCache C) (c : Bytes)
    (w : Race R C) : Race R C → Type 0 where
  hit :
      {l : Link} {s : C}
      → cache.get c w.cached ≡ ret l s
      → Step links cache c w (record w { cached = s })
  known_missing :
      {s : C}
      → cache.get c w.cached ≡ throw link_not_found s
      → Step links cache c w (record w { cached = s })
  miss :
      (i : ℕ) {e : Error} {s : C}
      → w.readers i ≡ looking
      → cache.get c w.cached ≡ throw e s
      → e ≢ link_not_found
      → Step links cache c w (record w { cached = s; readers = update w.readers i missed })
  found :
      (i : ℕ) {l : Link} {s : R}
      → w.readers i ≡ missed
      → links.find_by_code c w.rows ≡ ret l s
      → Step links cache c w
          (record w { rows = s; readers = update w.readers i (holding (some l)) })
  not_found :
      (i : ℕ) {s : R}
      → w.readers i ≡ missed
      → links.find_by_code c w.rows ≡ throw link_not_found s
      → Step links cache c w (record w { rows = s; readers = update w.readers i (holding none) })
  failed :
      (i : ℕ) {e : Error} {s : R}
      → w.readers i ≡ missed
      → links.find_by_code c w.rows ≡ throw e s
      → e ≢ link_not_found
      → Step links cache c w (record w { rows = s; readers = update w.readers i looking })
  write_back :
      (i : ℕ) {o : Option Link}
      → w.readers i ≡ holding o
      → Step links cache c w
          (record w { cached = fill cache c o w.cached; readers = update w.readers i looking })
  set_status :
      {owner : Int64} {st : Status} {l : Link} {s : R}
      → w.writer ≡ quiet
      → links.update_status c owner st w.rows ≡ ret l s
      → Step links cache c w (record w { rows = s; writer = committed })
  soft_delete :
      {owner : Int64} {s : R}
      → w.writer ≡ quiet
      → links.soft_delete c owner w.rows ≡ ret tt s
      → Step links cache c w (record w { rows = s; writer = committed })
  first_delete :
      w.writer ≡ committed
      → Step links cache c w
          (record w { cached = final (cache.invalidate c w.cached); writer = deleted })
  second_delete :
      {s : C}
      → w.writer ≡ deleted
      → cache.invalidate c w.cached ≡ ret tt s
      → Step links cache c w (record w { cached = s; writer = finished })
  second_failed :
      {e : Error} {s : C}
      → w.writer ≡ deleted
      → cache.invalidate c w.cached ≡ throw e s
      → Step links cache c w (record w { cached = s; writer = given_up })

pub data Reach {R C : Type 0} (links : LinkRepository R) (cache : LinkCache C) (c : Bytes)
    (w : Race R C) : Race R C → Type 0 where
  here : Reach links cache c w w
  later :
      {u : Race R C} {v : Race R C}
      → Reach links cache c w u
      → Step links cache c u v
      → Reach links cache c w v
