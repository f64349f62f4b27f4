-- ===== src/Postgres/Rows.antt =====
-- The table share_links of migrations/0002, as a list of rows: its unique indexes, the WHERE clauses
-- of link_repository.go, and what the statements of that file do to the rows.
use youpass_share_service.Base.{
  Bool, Bool-cases, Bytes, Int64, List, Option-cases, [], ap, arith, bytes_eq, bytes_eq_iff,
  bytes_eq_refl, eq_of_bytes_eq, eq_of_some-eq, eqb, false, fun_ext, if◌then◌else◌, inl, inr, map,
  none, none≢some, refl, some, subst, suc, sym, true, true≢false, ℕ, ◌&&◌, ◌==◌, ◌∙◌, ◌∷◌, ◌≡◌, ◌≢◌,
  ◌⊎◌, nat_eq, bytes_eq_instance,
}
use youpass_share_service.Domain.Link.{Link, ResourceType}
use youpass_share_service.Share.Contract.{IsLive, Shares, Table, write}

-- Two rows that uq_share_links_code or uq_share_links_active_resource forbids to stand together.
abbrev pub Clash : Link → Link → Type 0
Clash l m = (l.code ≡ m.code) ⊎ (Shares l.resource_type l.resource_id m × IsLive l)

abbrev pub Among : Link → List Link → Type 0
Among l [] = ⊥
Among l (m ∷ ms) = (l ≡ m) ⊎ Among l ms

abbrev pub IsKeyed : List Link → Type 0
IsKeyed [] = Unit
IsKeyed (l ∷ ls) = ((m : Link) → Among m ls → ¬ Clash l m) × IsKeyed ls

-- WHERE code = $1 AND owner_id = $2 AND deleted_at IS NULL
abbrev pub is_live : Link → Bool
is_live l = elim l.deleted_at [ none ↦ true | some t ↦ false ]

abbrev pub owned_row : Bytes → Int64 → Link → Bool
owned_row c owner l = l.code == c && (eqb l.owner_id owner && is_live l)

-- WHERE resource_type = $1 AND resource_id = $2 AND deleted_at IS NULL
abbrev pub shares_row : ResourceType → Int64 → Link → Bool
shares_row rt id l = l.resource_type == rt && (eqb l.resource_id id && is_live l)

-- The row of a code.
abbrev pub row_at : List Link → Table
row_at [] c = none
row_at (l ∷ ls) c = if l.code == c then some l else row_at ls c

-- UPDATE share_links SET ... WHERE ...
abbrev pub change : (Link → Bool) → (Link → Link) → List Link → List Link
change p f = map (λ l. if p l then f l else l)

-- The rows that a WHERE clause takes.
abbrev pub matching : (Link → Bool) → List Link → ℕ
matching p [] = 0
matching p (l ∷ ls) = if p l then suc (matching p ls) else matching p ls

Clash-sym : (l m : Link) → Clash l m → Clash m l
Clash-sym l m (inl e) = inl (sym e)
Clash-sym l m (inr ((rt, id, live), alive)) = inr ((sym rt, sym id, alive), live)

pub keyed_once :
    (ls : List Link) (l m : Link) → IsKeyed ls → Among l ls → Among m ls → Clash l m → l ≡ m
keyed_once [] l m k p q x = absurd p
keyed_once (a ∷ ls) l m k (inl p) (inl q) x = p ∙ sym q
keyed_once (a ∷ ls) l m k (inl p) (inr q) x = absurd (k.0 m q (subst (λ y. Clash y m) p x))
keyed_once (a ∷ ls) l m k (inr p) (inl q) x =
    absurd (k.0 l p (subst (λ y. Clash y l) q (Clash-sym l m x)))
keyed_once (a ∷ ls) l m k (inr p) (inr q) x = keyed_once ls l m k.1 p q x

pub row_at-Among :
    (ls : List Link) (c : Bytes) (l : Link) → row_at ls c ≡ some l → Among l ls × (l.code ≡ c)
row_at-Among [] c l e = absurd (none≢some e)
row_at-Among (a ∷ ls) c l e = elim (Bool-cases (a.code == c)) [
  | inl q ↦
      let same : a ≡ l = eq_of_some-eq (rw (q) at e) in
      (inl (sym same), sym (ap (λ (x : Link). x.code) same) ∙ eq_of_bytes_eq a.code c q)
  | inr q ↦ let (p, r) = row_at-Among ls c l (rw (q) at e) in (inr p, r)
]

pub row_at-none :
    (ls : List Link) (c : Bytes) (l : Link) → row_at ls c ≡ none → Among l ls → l.code ≢ c
row_at-none [] c l e p = λ same. absurd p
row_at-none (a ∷ ls) c l e p = λ same. elim (Bool-cases (a.code == c)) [
  | inl q ↦ none≢some (sym (rw (q) at e))
  | inr q ↦ elim p [
    | inl is ↦ true≢false (
        sym (
          subst (λ d. bytes_eq d c ≡ true) (sym same ∙ ap (λ (x : Link). x.code) is)
            (bytes_eq_refl c))
        ∙ q)
    | inr later ↦ row_at-none ls c l (rw (q) at e) later same
  ]
]

-- The row of a code is the one that has it.
pub row_at-code : (ls : List Link) (l : Link) → IsKeyed ls → Among l ls → row_at ls l.code ≡ some l
row_at-code ls l k p = elim (Option-cases (row_at ls l.code)) [
  | inl e ↦ absurd (row_at-none ls l.code l e p refl)
  | inr (m, e) ↦
      let (q, same) = row_at-Among ls l.code m e in
      e ∙ ap (λ (x : Link). some x) (keyed_once ls m l k q p (inl same))
]

module _ (g : Link → Link) (keeps : (x : Link) → (g x).code ≡ x.code) where
  row_at-map :
      (ls : List Link) (c : Bytes)
      → row_at (map g ls) c ≡ elim (row_at ls c) [ none ↦ none | some m ↦ some (g m) ]
  row_at-map [] c = refl
  row_at-map (a ∷ ls) c = elim (Bool-cases (a.code == c)) [
    | inl q ↦ rw (ap (λ k. k == c) (keeps a) ∙ q, q) refl
    | inr q ↦ rw (ap (λ k. k == c) (keeps a) ∙ q, q) (row_at-map ls c)
  ]

module _ (p : Link → Bool) (f : Link → Link) (keeps : (x : Link) → (f x).code ≡ x.code) where
  changed-code : (x : Link) → (if p x then f x else x).code ≡ x.code
  changed-code x = elim (Bool-cases (p x)) [ inl q ↦ rw (q) (keeps x) | inr q ↦ rw (q) refl ]

  -- An UPDATE whose clause takes rows of one code only writes the row of that code.
  pub row_at-change :
      (ls : List Link) (m : Link)
      → IsKeyed ls
      → Among m ls
      → p m ≡ true
      → ((x : Link) → p x ≡ true → x.code ≡ m.code)
      → ◌≡◌ {A = Table} (row_at (change p f ls)) (write (row_at ls) m.code (f m))
  row_at-change ls m k here takes only = fun_ext (λ d.
      row_at-map (λ x. if p x then f x else x) changed-code ls d
      ∙ at_each d (Bool-cases (m.code == d)))
    where
      at_each :
          (d : Bytes)
          → ((m.code == d) ≡ true) ⊎ ((m.code == d) ≡ false)
          → elim (row_at ls d) [ none ↦ none | some x ↦ some (if p x then f x else x) ]
            ≡ write (row_at ls) m.code (f m) d
      at_each d (inl q) = rw (q, ← eq_of_bytes_eq m.code d q, row_at-code ls m k here, takes) refl
      at_each d (inr q) = rw (q) (elim (Option-cases (row_at ls d)) [
        | inl e ↦ rw (e) refl
        | inr (x, e) ↦ rw (e) (elim (Bool-cases (p x)) [
          | inl t ↦ absurd (
              true≢false
                (sym ((bytes_eq_iff m.code d).1 (sym (only x t) ∙ (row_at-Among ls d x e).1)) ∙ q))
          | inr t ↦ rw (t) refl
        ])
      ])

pub matching_none :
    (p : Link → Bool) (ls : List Link) (m : Link) → matching p ls ≡ 0 → Among m ls → p m ≡ true → ⊥
matching_none p [] m e here takes = absurd here
matching_none p (a ∷ ls) m e here takes = elim (Bool-cases (p a)) [
  | inl q ↦ omega (arith, (rw (q) at e))
  | inr q ↦ elim here [
    | inl is ↦ true≢false (sym (sym (ap p is) ∙ takes) ∙ q)
    | inr later ↦ matching_none p ls m (rw (q) at e) later takes
  ]
]

pub matching_some :
    (p : Link → Bool) (ls : List Link) → matching p ls ≢ 0 → (m : Link) × Among m ls × (p m ≡ true)
matching_some p [] n = absurd (n refl)
matching_some p (a ∷ ls) n = elim (Bool-cases (p a)) [
  | inl q ↦ (a, inl refl, q)
  | inr q ↦ let (m, later, takes) = matching_some p ls (rw (q) at n) in (m, inr later, takes)
]

pub change_none :
    (p : Link → Bool) (f : Link → Link) (ls : List Link) → matching p ls ≡ 0 → change p f ls ≡ ls
change_none p f [] e = refl
change_none p f (a ∷ ls) e = elim (Bool-cases (p a)) [
  | inl q ↦ absurd (omega (arith, (rw (q) at e)))
  | inr q ↦ rw (q) (ap (λ l. a ∷ l) (change_none p f ls (rw (q) at e)))
]
