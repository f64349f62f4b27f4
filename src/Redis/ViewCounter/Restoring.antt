-- ===== src/Redis/ViewCounter/Restoring.antt =====
-- view_counter.go, flush and restore: what the pipeline takes, and what a failed store gives back.
use youpass_share_service.Base.{
  All, All-insert, All-mono, Bool-cases, Bytes, Dict, Int64, IsMap, List, Option, [], ap, arith,
  bytes_eq, bytes_eq_refl, eqb, eqb_iff, if◌then◌else◌, inl, inr, insert, insert-IsMap, is_positive,
  lookup, none, none≢some, refl, some, subst, sym, true, ℕ, ◌+◌, ◌<◌, ◌^◌, ◌∙◌, ◌∷◌, ◌≡◌, ◌⊎◌,
  nat_eq, bytes_eq_instance,
}
use youpass_share_service.Base.Decimal.{format_int}
use youpass_share_service.Base.Parse.{parse_int, parse_int-format_int}
use youpass_share_service.Domain.Error.{Error}
use youpass_share_service.Outcome.{
  Act, Outcome, Post, Post-by, Post-mono, final, ignore_then, ret, throw,
}
use youpass_share_service.Redis.{assign}
use youpass_share_service.Redis.ViewCounter.{
  Counters, Flow, deltas_of, dirty_key, int64_of, restore, take_counts, views_key,
}
use youpass_share_service.Redis.ViewCounter.Taking.{
  counted_in, take_counts_rule, views_key_same, worth,
}
use youpass_share_service.Redis.ViewCounter.Flushing.{FlowLaws, IsIn, IsLinkId, gain}

positive_bound : (n : Int64) → is_positive n ≡ true → n < 2 ^ 64
positive_bound n p = ground arith

worth_of :
    (bad : Error) (o : Option Int64) (n : Int64)
    → o ≡ some n
    → is_positive n ≡ true
    → worth (elim o [ none ↦ inl bad | some m ↦ inr m ]) ≡ n
worth_of bad o n e p = rw (e, p) refl

worth-format_int :
    (bad : Error) (n : Int64) → is_positive n ≡ true → worth (int64_of bad (format_int n)) ≡ n
worth-format_int bad n p =
    worth_of bad (parse_int (format_int n)) n (parse_int-format_int n (positive_bound n p)) p

module _ {S D : Type 0} {redis : Counters S} {add_views : Dict Int64 Int64 → Act D (Unit {0})}
    (laws : FlowLaws redis add_views) where
  -- The views of a link in Redis, and all of its views.
  abbrev pub counted : S → Int64 → ℕ
  counted = counted_in redis laws.take

  abbrev pub all_views : Flow S D → Int64 → ℕ
  all_views w id = counted w.counters id + laws.views w.stored id

  -- The dirty set holds link IDs.
  abbrev pub IsWritten : S → Type 0
  IsWritten s = (b : Bytes) → IsIn b (laws.members s) → IsLinkId b

  -- The counter of this reply, or of this delta, is gone.
  abbrev pub IsGone : S → Int64 → Type 0
  IsGone s i = (laws.take.value s (views_key i) ≡ none) × (i < 2 ^ 64)

  abbrev pub IsTaken : S → Int64 × (Error ⊎ Int64) → Type 0
  IsTaken s d = (n : Int64) → d.1 ≡ inr n → IsGone s d.0

  pub record IsBatch (before : S) (replies : Dict Int64 (Error ⊎ Int64)) (s : S) : Type 0 where
    pub once : IsMap replies
    pub bounded : All (λ d. d.0 < 2 ^ 64) replies
    pub taken : All (IsTaken s) replies
    pub same : laws.members s ≡ laws.members before

  pub unset :
      (s s' : S) (k : Bytes)
      → laws.take.value s' ≡ assign (laws.take.value s) k none
      → (i : Int64) → IsGone s i
      → IsGone s' i
  unset s s' k e i g = (
    ap (λ (t : Bytes → Option Bytes). t (views_key i)) e
        ∙ (elim (Bool-cases (bytes_eq k (views_key i))) [ inl q ↦ rw q refl | inr q ↦ rw q g.0 ]),
    g.1,
  )

  pub now_unset :
      (s s' : S) (k : Bytes)
      → laws.take.value s' ≡ assign (laws.take.value s) k none
      → laws.take.value s' k ≡ none
  now_unset s s' k e = ap (λ (t : Bytes → Option Bytes). t k) e ∙ rw (bytes_eq_refl) refl

  pub same-IsGone :
      (s s' : S) → laws.take.value s' ≡ laws.take.value s → (i : Int64) → IsGone s i → IsGone s' i
  same-IsGone s s' e i g = (ap (λ (t : Bytes → Option Bytes). t (views_key i)) e ∙ g.0, g.1)

  got-IsBatch :
      (b : S) (i : Int64) (replies : Dict Int64 (Error ⊎ Int64)) (s : S) (v : Bytes) (s' : S)
      → i < 2 ^ 64
      → redis.get_del (views_key i) s ≡ ret v s'
      → IsBatch b replies s
      → IsBatch b (insert i (int64_of redis.number_error v) replies) s'
  got-IsBatch b i replies s v s' hi g h =
      let away : laws.take.value s' ≡ assign (laws.take.value s) (views_key i) none =
        (Post-by (λ _ u. laws.take.value u ≡ assign (laws.take.value s) (views_key i) none)
          (λ _ _. Unit) (ret v s') (redis.get_del (views_key i) s) (sym g)
          (Post-mono _ _ _ _ (redis.get_del (views_key i) s) (laws.take.taken (views_key i) s)
            (λ a u p. p.1) (λ x u p. tt))) in
      record {
        once = insert-IsMap i _ replies h.once;
        bounded = All-insert (λ d. d.0 < 2 ^ 64) i _ replies hi h.bounded;
        taken =
            All-insert (IsTaken s') i _ replies (λ n e. (now_unset s s' (views_key i) away, hi))
              (All-mono (IsTaken s) (IsTaken s') replies
                (λ d p n e. unset s s' (views_key i) away d.0 (p n e)) h.taken);
        same =
            ap (λ (o : Outcome S Bytes). laws.members (final o)) (sym g)
            ∙ (laws.left (views_key i) s ∙ h.same);
      }

  failed-IsBatch :
      (b : S) (i : Int64) (replies : Dict Int64 (Error ⊎ Int64)) (s : S) (x : Error) (s' : S)
      → i < 2 ^ 64
      → redis.get_del (views_key i) s ≡ throw x s'
      → IsBatch b replies s
      → IsBatch b (insert i (inl x) replies) s'
  failed-IsBatch b i replies s x s' hi g h =
      let kept : (laws.take.value s' ≡ laws.take.value s)
          ⊎ (laws.take.value s' ≡ assign (laws.take.value s) (views_key i) none) =
        (Post-by (λ _ _. Unit)
          (λ _ u.
            (laws.take.value u ≡ laws.take.value s)
            ⊎ (laws.take.value u ≡ assign (laws.take.value s) (views_key i) none))
          (throw x s') (redis.get_del (views_key i) s) (sym g)
          (Post-mono _ _ _ _ (redis.get_del (views_key i) s) (laws.take.taken (views_key i) s)
            (λ a u p. tt) (λ x u p. elim p [ inl same ↦ inl same | inr q ↦ inr q.1 ]))) in
      record {
        once = insert-IsMap i _ replies h.once;
        bounded = All-insert (λ d. d.0 < 2 ^ 64) i _ replies hi h.bounded;
        taken =
            All-insert (IsTaken s') i _ replies (λ n e. cc)
              (All-mono (IsTaken s) (IsTaken s') replies
                (λ d p n e. elim kept [
                  | inl same ↦ same-IsGone s s' same d.0 (p n e)
                  | inr away ↦ unset s s' (views_key i) away d.0 (p n e)
                ])
                h.taken);
        same =
            ap (λ (o : Outcome S Bytes). laws.members (final o)) (sym g)
            ∙ (laws.left (views_key i) s ∙ h.same);
      }

  pub take_counts-IsBatch :
      (ids : List Bytes) (s : S)
      → IsBatch s (take_counts redis ids [] s).0 (take_counts redis ids [] s).1
  take_counts-IsBatch ids s =
      take_counts_rule redis (IsBatch s) (got-IsBatch s) (failed-IsBatch s) ids [] s
        (record { once = tt; bounded = tt; taken = tt; same = refl })

  pub deltas-IsGone :
      (s : S) (replies : Dict Int64 (Error ⊎ Int64))
      → All (IsTaken s) replies
      → All (λ d. IsGone s d.0 × (is_positive d.1 ≡ true)) (deltas_of redis replies)
  unfolding deltas_of
  deltas-IsGone s [] h = tt
  deltas-IsGone s ((i, inl e) ∷ rest) h = deltas-IsGone s rest h.1
  deltas-IsGone s ((i, inr n) ∷ rest) h = elim (Bool-cases (is_positive n)) [
    | inl p ↦ rw p ((h.0 n refl, p), deltas-IsGone s rest h.1)
    | inr p ↦ rw p (deltas-IsGone s rest h.1)
  ]

  abbrev pub AreGone : S → Dict Int64 Int64 → Type 0
  AreGone s deltas = All (λ d. IsGone s d.0 × (is_positive d.1 ≡ true)) deltas

  -- The state after one delta was given back.
  abbrev given_back : Int64 → Int64 → S → S
  given_back i n s =
      final (redis.s_add dirty_key (format_int i ∷ []) (final (redis.incr_by (views_key i) n s)))

  restore_step :
      (i n : Int64) (deltas : Dict Int64 Int64) (s : S)
      → restore redis ((i, n) ∷ deltas) s ≡ restore redis deltas (given_back i n s)
  unfolding restore
  restore_step i n deltas s =
      ignore_then (redis.incr_by (views_key i) n) _ s
      ∙ ignore_then (redis.s_add dirty_key (format_int i ∷ [])) (restore redis deltas) _

  given_back_value :
      (i n : Int64) (s : S)
      → IsGone s i
      → laws.take.value (given_back i n s)
        ≡ assign (laws.take.value s) (views_key i) (some (format_int n))
  given_back_value i n s g =
      (laws.marked (format_int i ∷ []) _).0
      ∙ incremented (redis.incr_by (views_key i) n s) (laws.increased (views_key i) n s g.0)
    where
      incremented :
          (o : Outcome S (Unit {0}))
          → Post o
              (λ _ s'.
                (laws.take.value s'
                  ≡ assign (laws.take.value s) (views_key i) (some (format_int n)))
                × (laws.members s' ≡ laws.members s))
              (λ _ _. ⊥)
          → laws.take.value (final o)
            ≡ assign (laws.take.value s) (views_key i) (some (format_int n))
      incremented (ret a t) h = h.0
      incremented (throw e t) h = absurd h

  counted-given_back :
      (i n : Int64) (s : S) (id : Int64)
      → id < 2 ^ 64
      → IsGone s i
      → is_positive n ≡ true
      → counted (given_back i n s) id ≡ (if eqb i id then n else counted s id)
  counted-given_back i n s id hid g p =
      let at = ap (λ (t : Bytes → Option Bytes). t (views_key id)) (given_back_value i n s g) in
      rw (at, views_key_same i id g.1 hid)
        (elim (Bool-cases (eqb i id)) [
          | inl q ↦ rw q (worth-format_int redis.number_error n p)
          | inr q ↦ rw q refl
        ])

  still_gone :
      (i n : Int64) (s : S) (deltas : Dict Int64 Int64)
      → IsGone s i
      → lookup i deltas ≡ none
      → AreGone s deltas
      → AreGone (given_back i n s) deltas
  unfolding lookup
  still_gone i n s [] g h a = tt
  still_gone i n s ((j, m) ∷ deltas) g h a = elim (Bool-cases (eqb j i)) [
    | inl q ↦ absurd (none≢some (sym (rw q at h)))
    | inr q ↦ (
      (
        (
          ap (λ (t : Bytes → Option Bytes). t (views_key j)) (given_back_value i n s g)
              ∙ rw (views_key_same i j g.1 a.0.0.1)
                  (ground (arith, eqb_iff i j, eqb_iff j i, a.0.0.0)),
          a.0.0.1,
        ),
        a.0.1,
      ),
      still_gone i n s deltas g (rw q at h) a.1,
    )
  ]

  pub gone_counted : (s : S) (i : Int64) → IsGone s i → counted s i ≡ 0
  gone_counted s i g = rw g.0 refl

  pub restore_lem :
      (deltas : Dict Int64 Int64) (s : S) (id : Int64)
      → id < 2 ^ 64
      → IsMap deltas
      → AreGone s deltas
      → counted (final (restore redis deltas s)) id ≡ gain deltas id + counted s id
  unfolding restore lookup
  restore_lem [] s id hid m g = omega arith
  restore_lem ((i, n) ∷ deltas) s id hid m g =
      let rest =
        restore_lem deltas (given_back i n s) id hid m.1 (still_gone i n s deltas g.0.0 m.0 g.1) in
      let here = counted-given_back i n s id hid g.0.0 g.0.1 in
      ap (λ (o : Outcome S (Unit {0})). counted (final o) id) (restore_step i n deltas s)
      ∙ (rest ∙ (elim (Bool-cases (eqb i id)) [
        | inl q ↦
            let e : i ≡ id = (eqb_iff i id).0 q in
            let absent : lookup id deltas ≡ none =
              subst (λ (x : Int64). lookup x deltas ≡ none) e m.0 in
            let zero_now : counted s id ≡ 0 =
              subst (λ (x : Int64). counted s x ≡ 0) e (gone_counted s i g.0.0) in
            rw (here, q, absent, zero_now) (omega arith)
        | inr q ↦ rw (here, q) refl
      ]))
