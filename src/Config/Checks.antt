-- ===== src/Config/Checks.antt =====
-- config.go: what a configuration without an error is.
use youpass_share_service.Base.{
  All, Bool, Bool-cases, Bytes, Int64, List, Option, Option-cases, [], arith, codes, eqb_iff, false,
  inl, inr, length, ltb, none≢some, refl, some, sym, true, true≢false, ℕ, ◌++◌, ◌<◌, ◌^◌, ◌↔◌, ◌∙◌,
  ◌∷◌, ◌≡◌, ◌≢◌, ◌≤◌, ◌⊎◌,
}
use youpass_share_service.Base.Parse.{parse_int, parse_int_bound}
use youpass_share_service.Config.{
  Config, Outside, Problem, check, checks, duration_env, ends_with, getenv, int_env, is_empty, load,
  lt64, no_database_url, no_rate, no_workers, parsed_env, proxies, short_interval, short_secret,
  slashed, split, unreadable,
}

is_empty_iff : (s : Bytes) → (is_empty s ≡ true) ↔ (s ≡ [])
is_empty_iff s = ground arith

snoc_not_empty : {A : Type 0} (xs : List A) (x : A) → xs ++ x ∷ [] ≡ [] → ⊥
snoc_not_empty [] x e = cc
snoc_not_empty (y ∷ xs) x e = cc

check_iff :
    (out : Outside) (bad : Bool) (p : Problem) (errs : List Problem)
    → (check out bad p errs ≡ []) ↔ ((errs ≡ []) × (bad ≡ false))
check_iff out true p errs = (λ e. absurd (snoc_not_empty errs p e), λ h. absurd (true≢false h.1))
check_iff out false p errs = (λ e. (e, refl), λ h. h.0)

-- A signed comparison with a positive bound.
at_least :
    (m x : ℕ) → m < 2 ^ 63 → 0 < m → x < 2 ^ 64 → (lt64 x m ≡ false) ↔ ((m ≤ x) × (x < 2 ^ 63))
at_least m x hm hz hx = ground arith

ends_with-append : (b : ℕ) (s : Bytes) → ends_with b (s ++ b ∷ []) ≡ true
ends_with-append b [] = ground (arith, eqb_iff b b)
ends_with-append b (c ∷ []) = ends_with-append b []
ends_with-append b (c ∷ d ∷ s) = ends_with-append b (d ∷ s)

slashed_ends : (out : Outside) (url : Bytes) → ends_with b'/' (slashed out url) ≡ true
unfolding slashed
slashed_ends out url = elim (Bool-cases (ends_with b'/' url)) [
  | inl q ↦ rw (q, slashed) q
  | inr q ↦ rw (q, slashed) (ends_with-append b'/' url)
]

module _ (out : Outside) where
  -- The variable is not set, or has a value that its parser reads.
  abbrev pub Reads : (Bytes → Option Int64) → Bytes → Type 0
  Reads parse key = (out.os_getenv key ≡ []) ⊎ ((n : Int64) × (parse (out.os_getenv key) ≡ some n))

  parsed_iff :
      (parse : Bytes → Option Int64) (key : Bytes) (fallback : Int64) (errs : List Problem)
      → ((parsed_env out parse key fallback errs).1 ≡ []) ↔ ((errs ≡ []) × Reads parse key)
  parsed_iff parse key fallback errs = elim (Bool-cases (is_empty (out.os_getenv key))) [
    | inl q ↦ rw q ((λ e. (e, inl ((is_empty_iff _).0 q))), (λ h. h.0))
    | inr q ↦ elim (Option-cases (parse (out.os_getenv key))) [
      | inl n ↦
          rw (q, n)
            (
              (λ e. absurd (snoc_not_empty errs (unreadable key) e)),
              (λ h. elim h.1 [
                | inl z ↦ absurd (true≢false (sym ((is_empty_iff _).1 z) ∙ q))
                | inr (m, e) ↦ absurd (none≢some e)
              ]),
            )
      | inr (m, n) ↦ rw (q, n) ((λ e. (e, inr (m, refl))), (λ h. h.0))
    ]
  ]

  parsed_bound :
      (parse : Bytes → Option Int64) (key : Bytes) (fallback : Int64) (errs : List Problem)
      → fallback < 2 ^ 64
      → ((s : Bytes) (n : Int64) → parse s ≡ some n → n < 2 ^ 64)
      → (parsed_env out parse key fallback errs).0 < 2 ^ 64
  parsed_bound parse key fallback errs hf hp = elim (Bool-cases (is_empty (out.os_getenv key))) [
    | inl q ↦ rw q hf
    | inr q ↦ elim (Option-cases (parse (out.os_getenv key))) [
      | inl n ↦ rw (q, n) hf
      | inr (m, n) ↦ rw (q, n) (hp _ m n)
    ]
  ]

  -- All five numbers can be read.
  abbrev pub IsReadable : Type 0
  IsReadable =
      Reads parse_int (codes "REDIS_DB")
      × Reads out.parse_duration (codes "JWT_TTL")
      × Reads out.parse_duration (codes "FLUSH_INTERVAL")
      × Reads parse_int (codes "VIEW_WORKERS")
      × Reads parse_int (codes "RATE_LIMIT_PER_MIN")

  -- What the service needs; the numbers are signed.
  abbrev pub IsUsable : Config → Type 0
  IsUsable cfg =
      (cfg.database_url ≢ [])
      × (32 ≤ length cfg.jwt_secret)
      × ((1 ≤ cfg.view_workers) × (cfg.view_workers < 2 ^ 63))
      × ((1000000000 ≤ cfg.flush_interval) × (cfg.flush_interval < 2 ^ 63))
      × ((1 ≤ cfg.rate_limit_per_min) × (cfg.rate_limit_per_min < 2 ^ 63))

  not_short : (n : ℕ) → (ltb n 32 ≡ false) ↔ (32 ≤ n)
  not_short n = ground arith

  full_iff : (s : Bytes) → (is_empty s ≡ false) ↔ (s ≢ [])
  full_iff [] = ((λ e. cc), (λ n. absurd (n refl)))
  full_iff (c ∷ s) = ((λ e p. cc), (λ n. refl))

  checks_iff :
      (cfg : Config) (errs : List Problem)
      → cfg.view_workers < 2 ^ 64
      → cfg.flush_interval < 2 ^ 64
      → cfg.rate_limit_per_min < 2 ^ 64
      → (checks out cfg errs ≡ []) ↔ ((errs ≡ []) × IsUsable cfg)
  unfolding checks
  checks_iff cfg errs hw hf hr =
      let workers = at_least 1 cfg.view_workers (omega arith) (omega arith) hw in
      let flush = at_least 1000000000 cfg.flush_interval (omega arith) (omega arith) hf in
      let rate = at_least 1 cfg.rate_limit_per_min (omega arith) (omega arith) hr in
      (
        λ e.
            let (e₄, r) = (check_iff out _ no_rate _).0 e in
            let (e₃, f) = (check_iff out _ short_interval _).0 e₄ in
            let (e₂, w) = (check_iff out _ no_workers _).0 e₃ in
            let (e₁, k) = (check_iff out _ short_secret _).0 e₂ in
            let (e₀, d) = (check_iff out _ no_database_url _).0 e₁ in
            (e₀, ((full_iff _).0 d, (not_short _).0 k, workers.0 w, flush.0 f, rate.0 r)),
        λ (e₀, (d, k, w, f, r)). (check_iff out _ no_rate _).1 (
          (check_iff out _ short_interval _).1 (
            (check_iff out _ no_workers _).1 (
              (check_iff out _ short_secret _).1
                  ((check_iff out _ no_database_url _).1 (e₀, (full_iff _).1 d), (not_short _).1 k),
              workers.1 w,
            ),
            flush.1 f,
          ),
          rate.1 r,
        ),
      )

  proxies_full : (ps : List Bytes) → All (λ p. p ≢ []) (proxies out ps)
  unfolding proxies
  proxies_full [] = tt
  proxies_full (p ∷ ps) = elim (Bool-cases (is_empty (out.trim_space p))) [
    | inl q ↦ rw q (proxies_full ps)
    | inr q ↦ rw q ((full_iff _).0 q, proxies_full ps)
  ]

  -- If time.ParseDuration gives int64 values: `Load` has no error exactly if every number and
  -- duration is unset or readable, a database URL is set, the secret has at least 32 bytes, and
  -- the workers, the interval in nanoseconds and the rate, as signed numbers, reach their minimum.
  -- In any case the base URL ends with a slash, and no proxy is the empty text.
  pub load_lem :
      ((s : Bytes) (n : Int64) → out.parse_duration s ≡ some n → n < 2 ^ 64)
      → (((load out).1 ≡ []) ↔ (IsReadable × IsUsable (load out).0))
        × (ends_with b'/' (load out).0.share_base_url ≡ true)
        × All (λ p. p ≢ []) (load out).0.trusted_proxies
  unfolding load int_env duration_env
  load_lem durations =
      let e₁ = parsed_env out parse_int (codes "REDIS_DB") 0 [] in
      let e₂ = parsed_env out out.parse_duration (codes "JWT_TTL") 900000000000 e₁.1 in
      let e₃ = parsed_env out out.parse_duration (codes "FLUSH_INTERVAL") 10000000000 e₂.1 in
      let e₄ = parsed_env out parse_int (codes "VIEW_WORKERS") 4 e₃.1 in
      let e₅ = parsed_env out parse_int (codes "RATE_LIMIT_PER_MIN") 60 e₄.1 in
      let p₁ = parsed_iff parse_int (codes "REDIS_DB") 0 [] in
      let p₂ = parsed_iff out.parse_duration (codes "JWT_TTL") 900000000000 e₁.1 in
      let p₃ = parsed_iff out.parse_duration (codes "FLUSH_INTERVAL") 10000000000 e₂.1 in
      let p₄ = parsed_iff parse_int (codes "VIEW_WORKERS") 4 e₃.1 in
      let p₅ = parsed_iff parse_int (codes "RATE_LIMIT_PER_MIN") 60 e₄.1 in
      let final_checks =
        checks_iff (load out).0 e₅.1
          (parsed_bound parse_int (codes "VIEW_WORKERS") 4 e₃.1 (omega arith) parse_int_bound)
          (parsed_bound out.parse_duration (codes "FLUSH_INTERVAL") 10000000000 e₂.1 (omega arith)
            durations)
          (parsed_bound parse_int (codes "RATE_LIMIT_PER_MIN") 60 e₄.1 (omega arith)
            parse_int_bound) in
      (
        (
          λ e.
              let (z₅, usable) = final_checks.0 e in
              let (z₄, r₅) = p₅.0 z₅ in
              let (z₃, r₄) = p₄.0 z₄ in
              let (z₂, r₃) = p₃.0 z₃ in
              let (z₁, r₂) = p₂.0 z₂ in let (z₀, r₁) = p₁.0 z₁ in ((r₁, r₂, r₃, r₄, r₅), usable),
          λ ((r₁, r₂, r₃, r₄, r₅), usable).
              final_checks.1 (p₅.1 (p₄.1 (p₃.1 (p₂.1 (p₁.1 (refl, r₁), r₂), r₃), r₄), r₅), usable),
        ),
        slashed_ends out (getenv out (codes "SHARE_BASE_URL") (codes "https://youpass.vn/s/")),
        proxies_full (split b',' (out.os_getenv (codes "TRUSTED_PROXIES"))),
      )
