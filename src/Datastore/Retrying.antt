-- ===== src/Datastore/Retrying.antt =====
-- postgres.go, retry: how often it tries and how long it waits.
use youpass_share_service.Base.{arith, inl, inr, suc, total, zero, ℕ, ◌+◌, ◌<◌, ◌≡◌, ◌≤◌, ◌⊎◌}
use youpass_share_service.Domain.Error.{Error, unavailable}
use youpass_share_service.Outcome.{
  Act, Outcome, Outcome-cases, Post, Post-mono, Post-ret, Post-throw,
}
use youpass_share_service.Datastore.{attempts, first_delay, next_delay, retry, retry_from}

-- What a number of rounds waits, from this delay on.
abbrev pub total_delay : ℕ → ℕ → ℕ
total_delay zero delay = 0
total_delay (suc n) delay = delay + total_delay n (next_delay delay)

module _ {S : Type 0} (ping : Act S (Unit {0})) (wait : ℕ → Act S (Unit {0})) where
  -- The calls and the time are counted, and a wait fails only where the context is done.
  pub record RetryLaws : Type 1 where
    pub calls : S → ℕ
    pub waited : S → ℕ
    pub IsDone : Error → Type 0
    pub pinged :
        (s : S)
        → Post
            (ping s)
            (λ _ s'. (calls s' ≡ calls s + 1) × (waited s' ≡ waited s))
            (λ _ s'. (calls s' ≡ calls s + 1) × (waited s' ≡ waited s))
    pub paused :
        (d : ℕ) (s : S)
        → Post
            (wait d s)
            (λ _ s'. (calls s' ≡ calls s) × (waited s' ≡ waited s + d))
            (λ x _. IsDone x)

  module _ (laws : RetryLaws) where
    -- The calls and the time of a run that succeeds, and of one that gives up.
    abbrev pub Succeeds : ℕ → ℕ → S → S → Type 0
    Succeeds n total s s' =
        (laws.calls s < laws.calls s')
        × (laws.calls s' ≤ laws.calls s + n)
        × (laws.waited s' ≤ laws.waited s + total)

    abbrev pub GivesUp : ℕ → ℕ → S → Error → S → Type 0
    GivesUp n total s x s' =
        ((laws.calls s' ≡ laws.calls s + n) × (laws.waited s' ≡ laws.waited s + total))
        ⊎ laws.IsDone x

    abbrev Retries : ℕ → ℕ → S → Outcome S (Unit {0}) → Type 0
    Retries n delay s o =
        Post o (λ _ s'. Succeeds n (total_delay n delay) s s')
          (λ x s'. GivesUp n (total_delay n delay) s x s')

    -- One more round before a run of n.
    one_more :
        (n delay : ℕ) (s t : S) (o : Outcome S (Unit {0}))
        → laws.calls t ≡ laws.calls s + 1
        → laws.waited t ≡ laws.waited s + delay
        → Retries n (next_delay delay) t o
        → Retries (suc n) delay s o
    one_more n delay s t o called late h =
        Post-mono _ _ _ _ o h (λ _ u (more, few, time). (omega arith, omega arith, omega arith))
          (λ x u given. elim given [
            | inl (all, time) ↦ inl (omega arith, omega arith)
            | inr done ↦ inr done
          ])

    retry_from_lem :
        (n delay : ℕ) (last : Error) (s : S)
        → Retries n delay s (retry_from ping wait n delay last s)
    unfolding retry_from
    retry_from_lem zero delay last s = inl (omega arith, omega arith)
    retry_from_lem (suc n) delay last s = elim (Outcome-cases (ping s)) [
      | inl (a, t, e) ↦
          let (called, late) = Post-ret _ _ (ping s) a t (laws.pinged s) e in
          rw (e, retry_from) (omega arith, omega arith, omega arith)
      | inr (x, t, e) ↦
          let (called, late) = Post-throw _ _ (ping s) x t (laws.pinged s) e in
          elim (Outcome-cases (wait delay t)) [
            | inl (a, v, f) ↦
                let (called', late') = Post-ret _ _ (wait delay t) a v (laws.paused delay t) f in
                rw (e, f, retry_from)
                  (one_more n delay s v _ (omega arith) (omega arith)
                    (retry_from_lem n (next_delay delay) x v))
            | inr (y, v, f) ↦
                rw (e, f, retry_from)
                  (inr (Post-throw _ _ (wait delay t) y v (laws.paused delay t) f))
          ]
    ]

    -- If a wait fails only where the context is done: a successful `retry` has called its function
    -- between one and ten times and has waited at most 37.5 seconds. It fails only where the
    -- context is done, or after exactly ten calls and 37.5 seconds.
    pub retry_lem :
        (s : S)
        → Post
            (retry ping wait s)
            (λ _ s'. Succeeds 10 37500000000 s s')
            (λ x s'. GivesUp 10 37500000000 s x s')
    unfolding retry
    retry_lem s = retry_from_lem attempts first_delay unavailable s
