-- ===== src/Memory/Cache.antt =====
-- memstore.go: LinkCache.
pub mod Laws
use youpass_share_service.Base.{
  Bool, Bytes, Dict, Option, [], erase, false, if◌then◌else◌, insert, lookup, none, some, true,
  nat_eq, bytes_eq_instance,
}
use youpass_share_service.Domain.Error.{cache_miss, link_not_found, unavailable}
use youpass_share_service.Domain.Link.{Link}
use youpass_share_service.Outcome.{Act, ret, throw}
use youpass_share_service.Share.Ports.{LinkCache}

-- `fail` makes the cache unavailable, except for Invalidate.
pub record Cache : Type 0 where
  pub items : Dict Bytes Link
  pub negative : Dict Bytes Bool
  pub fail : Bool

abbrev pub new_cache : Cache
new_cache = record { items = []; negative = []; fail = false }

-- m[k] for a map of Booleans, with the false of a missing key
abbrev pub holds : Option Bool → Bool
holds none = false
holds (some b) = b

unfoldable pub get : Bytes → Act Cache Link
get code c =
    if c.fail
    then throw unavailable c
    else if holds (lookup code c.negative)
    then throw link_not_found c
    else (elim (lookup code c.items) [ some l ↦ ret l c | none ↦ throw cache_miss c ])

unfoldable pub set : Link → Act Cache (Unit {0})
set l c =
    if c.fail
    then throw unavailable c
    else ret tt (record c { items = insert l.code l c.items; negative = erase l.code c.negative })

unfoldable pub set_not_found : Bytes → Act Cache (Unit {0})
set_not_found code c =
    if c.fail
    then throw unavailable c
    else ret tt (record c { negative = insert code true c.negative })

unfoldable pub invalidate : Bytes → Act Cache (Unit {0})
invalidate code c =
    ret tt (record c { items = erase code c.items; negative = erase code c.negative })

abbrev pub memory_cache : LinkCache Cache
memory_cache = record {
  get = get;
  set = set;
  set_not_found = set_not_found;
  invalidate = invalidate;
}
