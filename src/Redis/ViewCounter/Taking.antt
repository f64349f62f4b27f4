-- ===== src/Redis/ViewCounter/Taking.antt =====
-- view_counter.go, flush: the pipeline of GETDEL moves views from Redis into its replies.
use youpass_share_service.Base.{
  All, Bool-cases, Bytes, Dict, Int64, List, Option, Option-cases, [], ap, arith, bytes_eq,
  bytes_eq_refl, codes, eq_of_bytes_eq, eqb, eqb_iff, if◌then◌else◌, inl, inr, insert, is_positive,
  lookup, lookup-insert, none, refl, some, subst, sym, tail, true≢false, ℕ, ◌++◌, ◌+◌, ◌<◌, ◌^◌,
  ◌∙◌, ◌∷◌, ◌≡◌, ◌≢◌, ◌⊎◌, nat_eq, bytes_eq_instance,
}
use youpass_share_service.Base.Decimal.{brace-IsBreak, numbered_injective}
use youpass_share_service.Base.Parse.{parse_int, parse_int_bound}
use youpass_share_service.Domain.Error.{Error}
use youpass_share_service.Outcome.{Outcome, Outcome-cases, Post, ret, throw}
use youpass_share_service.Redis.{assign}
use youpass_share_service.Redis.ViewCounter.{Counters, int64_of, take_counts, views_key}

views_key_injective : (i j : Int64) → i < 2 ^ 64 → j < 2 ^ 64 → views_key i ≡ views_key j → i ≡ j
unfolding views_key
views_key_injective i j hi hj e =
    (numbered_injective b'}' i j (codes ":views") (codes ":views") brace-IsBreak hi hj (cut e)).0
  where
    cut : {a b : Bytes} → codes "share:{" ++ a ≡ codes "share:{" ++ b → a ≡ b
    cut p = ap (λ (l : Bytes). tail (tail (tail (tail (tail (tail (tail l))))))) p

pub views_key_same :
    (i j : Int64) → i < 2 ^ 64 → j < 2 ^ 64 → bytes_eq (views_key i) (views_key j) ≡ eqb i j
views_key_same i j hi hj = elim (Bool-cases (eqb i j)) [
  | inl e ↦ rw (e, (eqb_iff i j).0 e, bytes_eq_refl) refl
  | inr e ↦ elim (Bool-cases (bytes_eq (views_key i) (views_key j))) [
    | inr d ↦ rw (e, d) refl
    | inl d ↦ absurd (
        true≢false (
          sym (
            (eqb_iff i j).1
              (views_key_injective i j hi hj (eq_of_bytes_eq (views_key i) (views_key j) d)))
          ∙ e))
  ]
]

-- The views that a reply, or a text in Redis, stands for.
abbrev pub worth : Error ⊎ Int64 → ℕ
worth (inl e) = 0
worth (inr n) = if is_positive n then n else 0

abbrev pub reply_worth : Option (Error ⊎ Int64) → ℕ
reply_worth none = 0
reply_worth (some r) = worth r

-- The members of a batch are different links.
abbrev pub Differs : Bytes → Bytes → Type 0
Differs a b = (i : Int64) → parse_int a ≡ some i → ¬ (parse_int b ≡ some i)

abbrev pub AreApart : List Bytes → Type 0
AreApart [] = Unit
AreApart (a ∷ ids) = All (Differs a) ids × AreApart ids

-- None of the members has a reply yet.
abbrev pub Await : Dict Int64 (Error ⊎ Int64) → List Bytes → Type 0
Await replies ids = All (λ b. (i : Int64) → parse_int b ≡ some i → lookup i replies ≡ none) ids

pub no_replies : (ids : List Bytes) → Await [] ids
unfolding lookup
no_replies [] = tt
no_replies (a ∷ ids) = ((λ i e. refl), no_replies ids)

module _ {S : Type 0} (redis : Counters S) where
  -- GETDEL as documented. A command that fails may have been executed: its reply, which is then
  -- lost, was not the nil reply.
  pub record TakeLaws : Type 0 where
    pub value : S → Bytes → Option Bytes
    pub taken :
        (k : Bytes) (s : S)
        → Post
            (redis.get_del k s)
            (λ v s'. (value s k ≡ some v) × (value s' ≡ assign (value s) k none))
            (λ e s'.
              (value s' ≡ value s) ⊎ ((e ≢ redis.nil_error) × (value s' ≡ assign (value s) k none)))

  -- No reply of a GETDEL that was executed is lost: one that fails has taken nothing.
  abbrev pub IsHeard : TakeLaws → Type 0
  IsHeard laws =
      (k : Bytes) (s : S)
      → Post (redis.get_del k s) (λ _ _. Unit {0}) (λ e s'. laws.value s' ≡ laws.value s)

  pub taken_heard :
      (laws : TakeLaws)
      → IsHeard laws
      → (k : Bytes) (s : S)
      → Post
          (redis.get_del k s)
          (λ v s'. (laws.value s k ≡ some v) × (laws.value s' ≡ assign (laws.value s) k none))
          (λ e s'. laws.value s' ≡ laws.value s)
  taken_heard laws heard k s = both _ _ _ (redis.get_del k s) (laws.taken k s) (heard k s)
    where
      both :
          (P : Bytes → S → Type 0) (Q R : Error → S → Type 0) (o : Outcome S Bytes)
          → Post o P Q
          → Post o (λ _ _. Unit {0}) R
          → Post o P R
      both P Q R (ret v s') h r = h
      both P Q R (throw e s') h r = r

  pub take_ret :
      (a : Bytes) (ids : List Bytes) (i : Int64) (replies : Dict Int64 (Error ⊎ Int64)) (s : S)
      (v : Bytes) (s' : S)
      → parse_int a ≡ some i
      → redis.get_del (views_key i) s ≡ ret v s'
      → take_counts redis (a ∷ ids) replies s
        ≡ take_counts redis ids (insert i (int64_of redis.number_error v) replies) s'
  unfolding take_counts
  take_ret a ids i replies s v s' e g = rw (e, g, take_counts) refl

  pub take_throw :
      (a : Bytes) (ids : List Bytes) (i : Int64) (replies : Dict Int64 (Error ⊎ Int64)) (s : S)
      (x : Error) (s' : S)
      → parse_int a ≡ some i
      → redis.get_del (views_key i) s ≡ throw x s'
      → take_counts redis (a ∷ ids) replies s ≡ take_counts redis ids (insert i (inl x) replies) s'
  unfolding take_counts
  take_throw a ids i replies s x s' e g = rw (e, g, take_counts) refl

  pub take_skip :
      (a : Bytes) (ids : List Bytes) (replies : Dict Int64 (Error ⊎ Int64)) (s : S)
      → parse_int a ≡ none
      → take_counts redis (a ∷ ids) replies s ≡ take_counts redis ids replies s
  unfolding take_counts
  take_skip a ids replies s e = rw (e, take_counts) refl

  -- What each command keeps, the pipeline keeps.
  pub take_counts_rule :
      (P : Dict Int64 (Error ⊎ Int64) → S → Type 0)
      → ((i : Int64) (replies : Dict Int64 (Error ⊎ Int64)) (s : S) (v : Bytes) (s' : S)
          → i < 2 ^ 64
          → redis.get_del (views_key i) s ≡ ret v s'
          → P replies s
          → P (insert i (int64_of redis.number_error v) replies) s')
      → ((i : Int64) (replies : Dict Int64 (Error ⊎ Int64)) (s : S) (x : Error) (s' : S)
          → i < 2 ^ 64
          → redis.get_del (views_key i) s ≡ throw x s'
          → P replies s
          → P (insert i (inl x) replies) s')
      → (ids : List Bytes) (replies : Dict Int64 (Error ⊎ Int64)) (s : S) → P replies s
      → P (take_counts redis ids replies s).0 (take_counts redis ids replies s).1
  unfolding take_counts
  take_counts_rule P got failed [] replies s h = h
  take_counts_rule P got failed (a ∷ ids) replies s h = elim (Option-cases (parse_int a)) [
    | inl e ↦ rw (take_skip a ids replies s e) (take_counts_rule P got failed ids replies s h)
    | inr (i, e) ↦ elim (Outcome-cases (redis.get_del (views_key i) s)) [
      | inl (v, s', g) ↦ rw (take_ret a ids i replies s v s' e g) (
          take_counts_rule P got failed ids _ s' (got i replies s v s' (parse_int_bound a i e) g h))
      | inr (x, s', g) ↦ rw (take_throw a ids i replies s x s' e g) (
          take_counts_rule P got failed ids _ s'
            (failed i replies s x s' (parse_int_bound a i e) g h))
    ]
  ]

  module _ (laws : TakeLaws) where
    abbrev pub text_worth : Option Bytes → ℕ
    text_worth none = 0
    text_worth (some v) = worth (int64_of redis.number_error v)

    -- The views of link id that are in Redis.
    abbrev pub counted_in : S → Int64 → ℕ
    counted_in s id = text_worth (laws.value s (views_key id))

    abbrev pub counted_out : Dict Int64 (Error ⊎ Int64) → Int64 → ℕ
    counted_out replies id = reply_worth (lookup id replies)

    still-Await :
        (i : Int64) (r : Error ⊎ Int64) (a : Bytes) (replies : Dict Int64 (Error ⊎ Int64))
        (ids : List Bytes)
        → parse_int a ≡ some i
        → All (Differs a) ids
        → Await replies ids
        → Await (insert i r replies) ids
    still-Await i r a replies [] e d w = tt
    still-Await i r a replies (b ∷ ids) e d w = (
      λ j p. elim (Bool-cases (eqb i j)) [
        | inl q ↦ absurd (d.0 i e (p ∙ ap some (sym ((eqb_iff i j).0 q))))
        | inr q ↦ rw (lookup-insert, q) (w.0 j p)
      ],
      still-Await i r a replies ids e d.1 w.1,
    )

    one_taken :
        (id i : Int64) (v : Bytes) (s s' : S) (replies : Dict Int64 (Error ⊎ Int64))
        → id < 2 ^ 64
        → i < 2 ^ 64
        → lookup i replies ≡ none
        → laws.value s (views_key i) ≡ some v
        → laws.value s' ≡ assign (laws.value s) (views_key i) none
        → counted_out (insert i (int64_of redis.number_error v) replies) id + counted_in s' id
          ≡ counted_out replies id + counted_in s id
    one_taken id i v s s' replies hid hi free at away =
        let after : laws.value s' (views_key id)
            ≡ assign (laws.value s) (views_key i) none (views_key id) =
          ap (λ (t : Bytes → Option Bytes). t (views_key id)) away in
        let same = views_key_same i id hi hid in
        elim (Bool-cases (eqb i id)) [
          | inl q ↦
              let free' : lookup id replies ≡ none =
                subst (λ (x : Int64). lookup x replies ≡ none) ((eqb_iff i id).0 q) free in
              let at' : laws.value s (views_key id) ≡ some v =
                subst (λ (x : Int64). laws.value s (views_key x) ≡ some v) ((eqb_iff i id).0 q)
                  at in
              rw (lookup-insert, after, same, q, free', at') (omega arith)
          | inr q ↦ rw (lookup-insert, after, same, q) refl
        ]

    one_failed :
        (id i : Int64) (e : Error) (s s' : S) (replies : Dict Int64 (Error ⊎ Int64))
        → lookup i replies ≡ none
        → laws.value s' ≡ laws.value s
        → counted_out (insert i (inl e) replies) id + counted_in s' id
          ≡ counted_out replies id + counted_in s id
    one_failed id i e s s' replies free same = elim (Bool-cases (eqb i id)) [
      | inl q ↦
          let free' : lookup id replies ≡ none =
            subst (λ (x : Int64). lookup x replies ≡ none) ((eqb_iff i id).0 q) free in
          rw (lookup-insert, same, q, free') refl
      | inr q ↦ rw (lookup-insert, same, q) refl
    ]

    -- The pipeline on these members moves views, and neither loses nor adds any.
    abbrev pub Moves : List Bytes → Int64 → Type 0
    Moves ids id =
        (replies : Dict Int64 (Error ⊎ Int64)) (s : S)
        → Await replies ids
        → counted_out (take_counts redis ids replies s).0 id
            + counted_in (take_counts redis ids replies s).1 id
          ≡ counted_out replies id + counted_in s id

    after_one :
        (a : Bytes) (ids : List Bytes) (id i : Int64) (replies : Dict Int64 (Error ⊎ Int64)) (s : S)
        (g : Outcome S Bytes)
        → id < 2 ^ 64
        → parse_int a ≡ some i
        → All (Differs a) ids
        → Await replies (a ∷ ids)
        → Moves ids id
        → redis.get_del (views_key i) s ≡ g
        → Post g
            (λ v s'.
              (laws.value s (views_key i) ≡ some v)
              × (laws.value s' ≡ assign (laws.value s) (views_key i) none))
            (λ e s'. laws.value s' ≡ laws.value s)
        → counted_out (take_counts redis (a ∷ ids) replies s).0 id
            + counted_in (take_counts redis (a ∷ ids) replies s).1 id
          ≡ counted_out replies id + counted_in s id
    after_one a ids id i replies s (ret v s') hid e apart fresh moves g (at, away) =
        rw (take_ret a ids i replies s v s' e g) (
          moves (insert i (int64_of redis.number_error v) replies) s'
            (still-Await i (int64_of redis.number_error v) a replies ids e apart fresh.1)
          ∙ one_taken id i v s s' replies hid (parse_int_bound a i e) (fresh.0 i e) at away)
    after_one a ids id i replies s (throw x s') hid e apart fresh moves g same =
        rw (take_throw a ids i replies s x s' e g) (
          moves (insert i (inl x) replies) s' (still-Await i (inl x) a replies ids e apart fresh.1)
          ∙ one_failed id i x s s' replies (fresh.0 i e) same)

    -- On a Redis whose GETDEL removes the value that it returns, and of which no reply of a GETDEL
    -- that was executed is lost: for a batch of different links that have no reply yet, the
    -- pipeline of `flush` moves views from the counters into the replies. For every int64 link ID,
    -- what the replies hold above zero and what its counter holds above zero have the same sum
    -- before and after, whichever commands fail without having been executed.
    pub take_counts_lem :
        IsHeard laws → (ids : List Bytes) (id : Int64) → id < 2 ^ 64 → AreApart ids → Moves ids id
    unfolding take_counts
    take_counts_lem heard [] id hid apart replies s fresh = refl
    take_counts_lem heard (a ∷ ids) id hid apart replies s fresh =
        elim (Option-cases (parse_int a)) [
          | inl e ↦
              rw (take_skip a ids replies s e)
                (take_counts_lem heard ids id hid apart.1 replies s fresh.1)
          | inr (i, e) ↦
              after_one a ids id i replies s (redis.get_del (views_key i) s) hid e apart.0 fresh
                (take_counts_lem heard ids id hid apart.1) refl
                (taken_heard laws heard (views_key i) s)
        ]
