-- ===== src/Config.antt =====
-- internal/infrastructure/config/config.go: the configuration from environment variables.
pub mod Checks
use youpass_share_service.Base.{
  Bool, Bytes, Int64, List, Option, [], bytes_eq, codes, eqb, false, if◌then◌else◌, le64, length,
  ltb, none, not, some, true, ℕ, ◌++◌, ◌∷◌,
}
use youpass_share_service.Base.Parse.{parse_int}

pub record Config : Type 0 where
  pub env : Bytes
  pub http_addr : Bytes
  pub database_url : Bytes
  pub redis_addr : Bytes
  pub redis_password : Bytes
  pub redis_db : Int64
  pub jwt_secret : Bytes
  pub jwt_ttl : Int64
  pub share_base_url : Bytes
  pub flush_interval : Int64
  pub view_workers : Int64
  pub rate_limit_per_min : Int64
  pub trusted_proxies : List Bytes

-- The errors that `Load` joins; `unreadable` wraps the error of a parser, with the variable.
pub data Problem : Type 0 where
  unreadable : Bytes → Problem
  no_database_url : Problem
  short_secret : Problem
  no_workers : Problem
  short_interval : Problem
  no_rate : Problem

unfoldable pub is_production : Config → Bool
is_production c = bytes_eq c.env (codes "production")

-- What stands outside: os.Getenv, which gives the empty text for a variable that is not set,
-- time.ParseDuration in nanoseconds, and strings.TrimSpace.
pub record Outside : Type 0 where
  pub os_getenv : Bytes → Bytes
  pub parse_duration : Bytes → Option Int64
  pub trim_space : Bytes → Bytes

abbrev pub is_empty : Bytes → Bool
is_empty [] = true
is_empty (c ∷ s) = false

-- strings.Split at a byte
abbrev pub split : ℕ → Bytes → List Bytes
split sep [] = [] ∷ []
split sep (c ∷ s) =
    let rest = split sep s in
    if eqb c sep then [] ∷ rest else (elim rest [ [] ↦ (c ∷ []) ∷ [] | p ∷ ps ↦ (c ∷ p) ∷ ps ])

-- strings.HasSuffix with one byte
abbrev pub ends_with : ℕ → Bytes → Bool
ends_with b [] = false
ends_with b (c ∷ []) = eqb c b
ends_with b (c ∷ d ∷ s) = ends_with b (d ∷ s)

-- x < y, signed
abbrev pub lt64 : Int64 → Int64 → Bool
lt64 x y = not (le64 y x)

module _ (out : Outside) where
  unfoldable pub getenv : Bytes → Bytes → Bytes
  getenv key fallback = let v = out.os_getenv key in if is_empty v then fallback else v

  -- The value with the errors so far, which the Go function appends to.
  abbrev pub parsed_env :
      (Bytes → Option Int64) → Bytes → Int64 → List Problem → Int64 × List Problem
  parsed_env parse key fallback errs =
      if is_empty (out.os_getenv key) then (fallback, errs) else (elim (parse (out.os_getenv key)) [
        | none ↦ (fallback, errs ++ unreadable key ∷ [])
        | some n ↦ (n, errs)
      ])

  unfoldable pub int_env : Bytes → Int64 → List Problem → Int64 × List Problem
  int_env key fallback errs = parsed_env parse_int key fallback errs

  unfoldable pub duration_env : Bytes → Int64 → List Problem → Int64 × List Problem
  duration_env key fallback errs = parsed_env out.parse_duration key fallback errs

  -- The entries of TRUSTED_PROXIES that are not blank.
  unfoldable pub proxies : List Bytes → List Bytes
  proxies [] = []
  proxies (p ∷ ps) =
      let rest = proxies ps in if is_empty (out.trim_space p) then rest else out.trim_space p ∷ rest

  abbrev pub check : Bool → Problem → List Problem → List Problem
  check bad problem errs = if bad then errs ++ problem ∷ [] else errs

  unfoldable pub checks : Config → List Problem → List Problem
  checks cfg errs = check (lt64 cfg.rate_limit_per_min 1) no_rate (
      check (lt64 cfg.flush_interval 1000000000) short_interval (
        check (lt64 cfg.view_workers 1) no_workers (
          check (ltb (length cfg.jwt_secret) 32) short_secret
            (check (is_empty cfg.database_url) no_database_url errs))))

  unfoldable pub slashed : Bytes → Bytes
  slashed url = if ends_with b'/' url then url else url ++ b'/' ∷ []

  unfoldable pub load : Config × List Problem
  unfolding getenv int_env duration_env proxies checks slashed
  load =
      let (redis_db, e₁) = int_env (codes "REDIS_DB") 0 [] in
      let (jwt_ttl, e₂) = duration_env (codes "JWT_TTL") 900000000000 e₁ in
      let (flush_interval, e₃) = duration_env (codes "FLUSH_INTERVAL") 10000000000 e₂ in
      let (view_workers, e₄) = int_env (codes "VIEW_WORKERS") 4 e₃ in
      let (rate, e₅) = int_env (codes "RATE_LIMIT_PER_MIN") 60 e₄ in
      let cfg : Config = record {
        env = getenv (codes "APP_ENV") (codes "development");
        http_addr = getenv (codes "HTTP_ADDR") (codes ":8080");
        database_url = out.os_getenv (codes "DATABASE_URL");
        redis_addr = getenv (codes "REDIS_ADDR") (codes "localhost:6379");
        redis_password = out.os_getenv (codes "REDIS_PASSWORD");
        redis_db = redis_db;
        jwt_secret = out.os_getenv (codes "JWT_SECRET");
        jwt_ttl = jwt_ttl;
        share_base_url = getenv (codes "SHARE_BASE_URL") (codes "https://youpass.vn/s/");
        flush_interval = flush_interval;
        view_workers = view_workers;
        rate_limit_per_min = rate;
        trusted_proxies = proxies (split b',' (out.os_getenv (codes "TRUSTED_PROXIES")));
      } in
      (record cfg { share_base_url = slashed cfg.share_base_url }, checks cfg e₅)
