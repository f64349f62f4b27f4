-- ===== src/Memory/Repository/Rows.antt =====
-- The list of links: what its invariant says of look-ups, and what keeps it.
use youpass_share_service.Base.{
  Bool-cases, Bytes, Dict, Int64, [], arith, bytes_eq, bytes_eq_iff, eq_of_bytes_eq, eq_of_some-eq,
  inl, inr, insert, lookup, lookup-insert, none, refl, some, sym, true, ◌↔◌, ◌∙◌, ◌∷◌, ◌≡◌, nat_eq,
  bytes_eq_instance,
}
use youpass_share_service.Domain.Link.{Link, ResourceType}
use youpass_share_service.Share.Contract.{IsLive, Shares}
use youpass_share_service.Memory.Repository.{first_shared, shares}

-- Codes are distinct, each link stands under its own, and two live links share no resource.
abbrev pub IsTidy : Dict Bytes Link → Type 0
IsTidy [] = Unit
IsTidy ((c, l) ∷ m) =
    (l.code ≡ c)
    × (lookup c m ≡ none)
    × (IsLive l
        → (d : Bytes) (x : Link) → lookup d m ≡ some x
        → ¬ Shares l.resource_type l.resource_id x)
    × IsTidy m

pub shares_iff :
    (rt : ResourceType) (id : Int64) (x : Link) → (shares rt id x ≡ true) ↔ Shares rt id x
shares_iff rt id x = ground (arith, bytes_eq_iff x.resource_type rt)

pub first_shared-some :
    (rt : ResourceType) (id : Int64) (m : Dict Bytes Link) (l : Link)
    → IsTidy m
    → first_shared rt id m ≡ some l
    → (lookup l.code m ≡ some l) × Shares rt id l
unfolding first_shared lookup
first_shared-some rt id [] l t e = cc
first_shared-some rt id ((c, x) ∷ m) l t e = elim (Bool-cases (shares rt id x)) [
  | inl fits ↦
      let same = eq_of_some-eq (rw (fits, first_shared) at e) in
      ground (arith, same, t.0, bytes_eq_iff c l.code, shares_iff rt id x)
  | inr other ↦
      let (at, what) = first_shared-some rt id m l t.3 (rw (other, first_shared) at e) in
      (ground (arith, bytes_eq_iff c l.code, at, t.1), what)
]

pub first_shared-none :
    (rt : ResourceType) (id : Int64) (m : Dict Bytes Link) (c : Bytes) (l : Link)
    → first_shared rt id m ≡ none
    → lookup c m ≡ some l
    → ¬ Shares rt id l
unfolding first_shared lookup
first_shared-none rt id [] c l n e fits = cc
first_shared-none rt id ((d, x) ∷ m) c l n e fits = ground (
  arith,
  shares_iff rt id x,
  bytes_eq_iff d c,
  fits,
  λ (p : first_shared rt id m ≡ none) (q : lookup c m ≡ some l).
      first_shared-none rt id m c l p q fits,
)

pub lookup-code :
    (m : Dict Bytes Link) (c : Bytes) (l : Link) → IsTidy m → lookup c m ≡ some l → l.code ≡ c
unfolding lookup
lookup-code [] c l t e = cc
lookup-code ((d, x) ∷ m) c l t e = ground (arith, bytes_eq_iff d c, t.0, lookup-code m c l t.3)

-- A link that shares the live link's resource stands under the same code.
pub lookup_unique :
    (m : Dict Bytes Link) (c d : Bytes) (l x : Link)
    → IsTidy m
    → lookup c m ≡ some l
    → lookup d m ≡ some x
    → Shares x.resource_type x.resource_id l
    → IsLive x
    → c ≡ d
unfolding lookup
lookup_unique [] c d l x t p q sh live = cc
lookup_unique ((i, y) ∷ m) c d l x t p q sh live = elim (Bool-cases (bytes_eq i c)) [
  | inl ic ↦ elim (Bool-cases (bytes_eq i d)) [
    | inl id ↦ sym (eq_of_bytes_eq i c ic) ∙ eq_of_bytes_eq i d id
    | inr id ↦ absurd (t.2 (ground arith) d x (rw (id, lookup) at q) (ground arith))
  ]
  | inr ic ↦ elim (Bool-cases (bytes_eq i d)) [
    | inl id ↦ absurd (t.2 (ground arith) c l (rw (ic, lookup) at p) (ground arith))
    | inr id ↦ lookup_unique m c d l x t.3 (rw (ic, lookup) at p) (rw (id, lookup) at q) sh live
  ]
]

-- Writing a link over its own row, with the same resource, and live only if the old one was.
pub insert_over-IsTidy :
    (m : Dict Bytes Link) (c : Bytes) (l l' : Link)
    → IsTidy m
    → lookup c m ≡ some l
    → l'.code ≡ l.code
    → l'.resource_type ≡ l.resource_type
    → l'.resource_id ≡ l.resource_id
    → (IsLive l' → IsLive l)
    → IsTidy (insert c l' m)
unfolding lookup insert
insert_over-IsTidy [] c l l' t p k rt ri live = cc
insert_over-IsTidy ((i, y) ∷ m) c l l' t p k rt ri live = elim (Bool-cases (bytes_eq i c)) [
  | inl here ↦
      let same : y ≡ l = eq_of_some-eq (rw (here, lookup) at p) in
      let at = eq_of_bytes_eq i c here in
      rw here (
        ground (arith, t.0, same, at),
        rw (← at) t.1,
        λ lv d x e sh. t.2 (ground (arith, same, live lv)) d x e (ground (arith, same)),
        t.3,
      )
  | inr there ↦
      let q = rw (there, lookup) at p in
      rw there (
        t.0,
        ground (arith, lookup-insert c i l' m, t.1, bytes_eq_iff c i, bytes_eq_iff i c),
        λ lv d x e sh. elim (Bool-cases (bytes_eq c d)) [
          | inl cd ↦
              let same : l' ≡ x = eq_of_some-eq (rw (lookup-insert c d l' m, cd) at e) in
              t.2 lv c l q (ground (arith, same, live))
          | inr cd ↦ t.2 lv d x (rw (lookup-insert c d l' m, cd) at e) sh
        ],
        insert_over-IsTidy m c l l' t.3 q k rt ri live,
      )
]

first_shared_tail :
    (rt : ResourceType) (id : Int64) (i : Bytes) (y : Link) (m : Dict Bytes Link)
    → first_shared rt id ((i, y) ∷ m) ≡ none
    → (¬ Shares rt id y) × (first_shared rt id m ≡ none)
unfolding first_shared
first_shared_tail rt id i y m f = ground (arith, shares_iff rt id y)

-- Adding a link under a new code, with a resource that no live link has.
pub insert_new-IsTidy :
    (m : Dict Bytes Link) (l : Link)
    → IsTidy m
    → lookup l.code m ≡ none
    → first_shared l.resource_type l.resource_id m ≡ none
    → IsTidy (insert l.code l m)
unfolding lookup insert first_shared
insert_new-IsTidy [] l t p f = (refl, refl, λ _ d x e _. cc, tt)
insert_new-IsTidy ((i, y) ∷ m) l t p f = elim (Bool-cases (bytes_eq i l.code)) [
  | inl here ↦ cc (rw (here, lookup) at p)
  | inr there ↦
      let fresh = rw (there, lookup) at p in
      let (alone, others) = first_shared_tail l.resource_type l.resource_id i y m f in
      rw there (
        t.0,
        ground
            (arith, lookup-insert l.code i l m, t.1, bytes_eq_iff l.code i, bytes_eq_iff i l.code),
        λ lv d x e sh. elim (Bool-cases (bytes_eq l.code d)) [
          | inl cd ↦
              let same : l ≡ x = eq_of_some-eq (rw (lookup-insert l.code d l m, cd) at e) in
              alone (ground (arith, same))
          | inr cd ↦ t.2 lv d x (rw (lookup-insert l.code d l m, cd) at e) sh
        ],
        insert_new-IsTidy m l t.3 fresh others,
      )
]
