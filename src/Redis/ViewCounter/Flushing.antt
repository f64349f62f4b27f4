-- ===== src/Redis/ViewCounter/Flushing.antt =====
-- view_counter.go, flush: what it relies on, and what a batch of replies is to the store.
use youpass_share_service.Base.{
  All, Any, Bool-cases, Bytes, Dict, Int64, IsMap, List, Option, [], ap, arith, eq_of_some-eq, inl,
  inr, is_positive, length, lookup, none, refl, some, subst, sym, ℕ, ◌+◌, ◌<◌, ◌^◌, ◌∙◌, ◌∷◌, ◌≡◌,
  ◌≢◌, ◌⊎◌, nat_eq, bytes_eq_instance,
}
use youpass_share_service.Base.Decimal.{format_int, value}
use youpass_share_service.Base.Parse.{parse_int, parse_int-format_int}
use youpass_share_service.Domain.Error.{Error}
use youpass_share_service.Outcome.{Act, Post, final}
use youpass_share_service.Redis.{assign}
use youpass_share_service.Redis.ViewCounter.{Counters, deltas_of, dirty_key, flush_batch}
use youpass_share_service.Redis.ViewCounter.Taking.{AreApart, TakeLaws, reply_worth}

abbrev pub IsIn : Bytes → List Bytes → Type 0
IsIn b = Any (λ a. a ≡ b)

abbrev pub AreDifferent : List Bytes → Type 0
AreDifferent [] = Unit
AreDifferent (a ∷ ids) = All (λ b. a ≢ b) ids × AreDifferent ids

abbrev pub amount : Option Int64 → ℕ
amount none = 0
amount (some n) = n

-- What a write of these deltas adds to the views of link id.
abbrev pub gain : Dict Int64 Int64 → Int64 → ℕ
gain deltas id = amount (lookup id deltas)

-- SPOP takes members that it chooses, and fewer than it is asked for only where it empties the set.
abbrev pub IsPopped :
    {S : Type 0} → (S → Bytes → Option Bytes) → (S → List Bytes) → S → List Bytes → S → Type 0
IsPopped value members s ids s' =
    (value s' ≡ value s)
    × AreDifferent ids
    × (length ids < flush_batch → members s' ≡ [])
    × (length (members s) ≡ length ids + length (members s'))
    × ((b : Bytes) → IsIn b ids ⊎ IsIn b (members s') → IsIn b (members s))
    × ((b : Bytes) → IsIn b (members s) → IsIn b ids ⊎ IsIn b (members s'))

-- Redis's sets and counters as documented, where INCRBY does not fail, and a store of views.
-- `IsRow` says which links the store has.
pub record FlowLaws {S D : Type 0} (redis : Counters S)
    (add_views : Dict Int64 Int64 → Act D (Unit {0})) : Type 1 where
  pub take : TakeLaws redis
  pub members : S → List Bytes
  pub popped :
      (s : S)
      → Post
          (redis.s_pop dirty_key flush_batch s)
          (IsPopped take.value members s)
          (λ e s'. (take.value s' ≡ take.value s) × (members s' ≡ members s))
  pub marked :
      (ids : List Bytes) (s : S)
      → (take.value (final (redis.s_add dirty_key ids s)) ≡ take.value s)
        × ((b : Bytes)
            → IsIn b (members (final (redis.s_add dirty_key ids s)))
            → IsIn b ids ⊎ IsIn b (members s))
  pub left : (k : Bytes) (s : S) → members (final (redis.get_del k s)) ≡ members s
  pub increased :
      (k : Bytes) (n : Int64) (s : S)
      → take.value s k ≡ none
      → Post
          (redis.incr_by k n s)
          (λ _ s'.
            (take.value s' ≡ assign (take.value s) k (some (format_int n)))
            × (members s' ≡ members s))
          (λ _ _. ⊥)
  pub IsRow : Int64 → Type 0
  pub views : D → Int64 → ℕ
  pub added :
      (deltas : Dict Int64 Int64) (d : D)
      → IsMap deltas
      → Post
          (add_views deltas d)
          (λ _ d'. (id : Int64) → IsRow id → views d' id ≡ views d id + gain deltas id)
          (λ _ d'. (id : Int64) → IsRow id → views d' id ≡ views d id)

-- The member is written as the program writes link IDs.
abbrev pub IsLinkId : Bytes → Type 0
IsLinkId b = (i : Int64) × (i < 2 ^ 64) × (b ≡ format_int i)

All-IsIn : (P : Bytes → Type 0) (ids : List Bytes) → ((b : Bytes) → IsIn b ids → P b) → All P ids
All-IsIn P [] h = tt
All-IsIn P (a ∷ ids) h = (h a (inl refl), All-IsIn P ids (λ b m. h b (inr m)))

pub IsIn_All : (P : Bytes → Type 0) (ids : List Bytes) (b : Bytes) → All P ids → IsIn b ids → P b
IsIn_All P [] b h m = absurd m
IsIn_All P (a ∷ ids) b h (inl e) = subst P e h.0
IsIn_All P (a ∷ ids) b h (inr m) = IsIn_All P ids b h.1 m

-- Different members that are link IDs are of different links.
differ :
    (a b : Bytes)
    → IsLinkId a
    → IsLinkId b
    → a ≢ b
    → (i : Int64) → parse_int a ≡ some i
    → ¬ (parse_int b ≡ some i)
differ a b (i, hi, ei) (j, hj, ej) ne k p q =
    let pi : some i ≡ some k = sym (parse_int-format_int i hi) ∙ ap parse_int (sym ei) ∙ p in
    let pj : some j ≡ some k = sym (parse_int-format_int j hj) ∙ ap parse_int (sym ej) ∙ q in
    ne (ei ∙ ap format_int (eq_of_some-eq pi ∙ sym (eq_of_some-eq pj)) ∙ sym ej)

differ-All :
    (a : Bytes) (ids : List Bytes)
    → IsLinkId a
    → All IsLinkId ids
    → All (λ b. a ≢ b) ids
    → All (λ b. (i : Int64) → parse_int a ≡ some i → ¬ (parse_int b ≡ some i)) ids
differ-All a [] h g d = tt
differ-All a (b ∷ ids) h g d = (differ a b h g.0 d.0, differ-All a ids h g.1 d.1)

apart-All : (ids : List Bytes) → All IsLinkId ids → AreDifferent ids → AreApart ids
apart-All [] h d = tt
apart-All (a ∷ ids) h d = (differ-All a ids h.0 h.1 d.0, apart-All ids h.1 d.1)

pub AreDifferent-AreApart :
    (ids : List Bytes) → ((b : Bytes) → IsIn b ids → IsLinkId b) → AreDifferent ids → AreApart ids
AreDifferent-AreApart ids h d = apart-All ids (All-IsIn IsLinkId ids h) d

-- The deltas of a map of replies are a map, with what the replies hold above zero.
module _ {S : Type 0} (redis : Counters S) where
  deltas_absent :
      (id : Int64) (replies : Dict Int64 (Error ⊎ Int64))
      → lookup id replies ≡ none
      → lookup id (deltas_of redis replies) ≡ none
  unfolding deltas_of lookup
  deltas_absent id [] h = refl
  deltas_absent id ((i, inl e) ∷ rest) h = ground (arith, deltas_absent id rest)
  deltas_absent id ((i, inr n) ∷ rest) h = ground (arith, deltas_absent id rest)

  pub deltas_of-IsMap :
      (replies : Dict Int64 (Error ⊎ Int64)) → IsMap replies → IsMap (deltas_of redis replies)
  unfolding deltas_of
  deltas_of-IsMap [] h = tt
  deltas_of-IsMap ((i, inl e) ∷ rest) h = deltas_of-IsMap rest h.1
  deltas_of-IsMap ((i, inr n) ∷ rest) h = elim (Bool-cases (is_positive n)) [
    | inl p ↦ rw p (deltas_absent i rest h.0, deltas_of-IsMap rest h.1)
    | inr p ↦ rw p (deltas_of-IsMap rest h.1)
  ]

  pub gain-deltas_of :
      (id : Int64) (replies : Dict Int64 (Error ⊎ Int64))
      → IsMap replies
      → gain (deltas_of redis replies) id ≡ reply_worth (lookup id replies)
  unfolding deltas_of lookup
  gain-deltas_of id [] h = refl
  gain-deltas_of id ((i, inl e) ∷ rest) h =
      ground (arith, gain-deltas_of id rest h.1, deltas_absent id rest, h.0)
  gain-deltas_of id ((i, inr n) ∷ rest) h =
      ground (arith, gain-deltas_of id rest h.1, deltas_absent id rest, h.0)
