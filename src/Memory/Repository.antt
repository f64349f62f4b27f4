-- ===== src/Memory/Repository.antt =====
-- memstore.go: LinkRepository, which is also a ViewStore.
mod Rows
pub mod Laws
use youpass_share_service.Base.{
  Bool, Bytes, Dict, Int64, Option, [], add64, eqb, false, if◌then◌else◌, insert, lookup, none, not,
  some, ◌&&◌, ◌==◌, ◌∷◌, nat_eq, bytes_eq_instance,
}
use youpass_share_service.Domain.Error.{already_shared, duplicate_code, link_not_found, unavailable}
use youpass_share_service.Domain.Link.{Link, ResourceType, Status, Time, is_set}
use youpass_share_service.Outcome.{Act, ret, throw}
use youpass_share_service.Share.Ports.{LinkRepository}

-- `clock` is what time.Now gives. A slow database (FindDelay) only takes time.
pub record Repository : Type 0 where
  pub links : Dict Bytes Link
  pub next_id : Int64
  pub find_calls : Int64
  pub fail_add_views : Bool
  pub clock : Time

abbrev pub new_repository : Time → Repository
new_repository t = record {
  links = [];
  next_id = 0;
  find_calls = 0;
  fail_add_views = false;
  clock = t;
}

-- x.ResourceType == rt && x.ResourceID == id && x.DeletedAt == nil
abbrev pub shares : ResourceType → Int64 → Link → Bool
shares rt id x = x.resource_type == rt && (eqb x.resource_id id && not (is_set x.deleted_at))

-- The loop over the links that returns the first that fits.
unfoldable pub first_shared : ResourceType → Int64 → Dict Bytes Link → Option Link
first_shared rt id [] = none
first_shared rt id ((c, x) ∷ m) = if shares rt id x then some x else first_shared rt id m

unfoldable pub insert_link : Link → Act Repository Link
insert_link l r =
    if is_set (lookup l.code r.links)
    then throw duplicate_code r
    else if is_set (first_shared l.resource_type l.resource_id r.links)
    then throw already_shared r
    else (let id = add64 r.next_id 1 in
        let l' = record l { id = id; created_at = r.clock } in
        ret l' (record r { next_id = id; links = insert l.code l' r.links }))

unfoldable pub find_by_code : Bytes → Act Repository Link
find_by_code code r =
    let r' = record r { find_calls = add64 r.find_calls 1 } in
    elim (lookup code r.links) [ some l ↦ ret l r' | none ↦ throw link_not_found r' ]

unfoldable pub find_by_resource : ResourceType → Int64 → Act Repository Link
find_by_resource rt id r = elim (first_shared rt id r.links) [
  | some l ↦ ret l r
  | none ↦ throw link_not_found r
]

-- l.OwnerID == ownerID && l.DeletedAt == nil
abbrev pub owns : Int64 → Link → Bool
owns owner_id l = eqb l.owner_id owner_id && not (is_set l.deleted_at)

unfoldable pub owned : Bytes → Int64 → Repository → Option Link
owned code owner_id r = elim (lookup code r.links) [
  | none ↦ none
  | some l ↦ if owns owner_id l then some l else none
]

unfoldable pub find_owned : Bytes → Int64 → Act Repository Link
unfolding owned
find_owned code owner_id r = elim (owned code owner_id r) [
  | some l ↦ ret l r
  | none ↦ throw link_not_found r
]

unfoldable pub update_status : Bytes → Int64 → Status → Act Repository Link
unfolding owned
update_status code owner_id st r = elim (owned code owner_id r) [
  | none ↦ throw link_not_found r
  | some l ↦
      let l' = record l { status = st } in ret l' (record r { links = insert code l' r.links })
]

unfoldable pub soft_delete : Bytes → Int64 → Act Repository (Unit {0})
unfolding owned
soft_delete code owner_id r = elim (owned code owner_id r) [
  | none ↦ throw link_not_found r
  | some l ↦
      let l' = record l { deleted_at = some r.clock } in
      ret tt (record r { links = insert code l' r.links })
]

-- deltas[id], with the zero of a missing key
abbrev pub delta : Dict Int64 Int64 → Int64 → Int64
delta deltas id = elim (lookup id deltas) [ some n ↦ n | none ↦ 0 ]

pub add_deltas : Dict Int64 Int64 → Dict Bytes Link → Dict Bytes Link
add_deltas deltas [] = []
add_deltas deltas ((c, l) ∷ m) =
    (c, record l { view_count = add64 l.view_count (delta deltas l.id) }) ∷ add_deltas deltas m

unfoldable pub add_views : Dict Int64 Int64 → Act Repository (Unit {0})
unfolding add_deltas
add_views deltas r =
    if r.fail_add_views
    then throw unavailable r
    else ret tt (record r { links = add_deltas deltas r.links })

-- The loop of ViewsOf.
pub views_in : Int64 → Dict Bytes Link → Int64
views_in id [] = 0
views_in id ((c, l) ∷ m) = if eqb l.id id then l.view_count else views_in id m

unfoldable pub views_of : Int64 → Repository → Int64
unfolding views_in
views_of id r = views_in id r.links

abbrev pub memory_links : LinkRepository Repository
memory_links = record {
  insert = insert_link;
  find_by_code = find_by_code;
  find_by_resource = find_by_resource;
  find_owned = find_owned;
  update_status = update_status;
  soft_delete = soft_delete;
}
