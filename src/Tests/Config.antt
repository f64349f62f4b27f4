-- ===== src/Tests/Config.antt =====
-- The theorem on the configuration, in an environment with what is required.
use youpass_share_service.Base.{
  All, Bytes, [], bytes_eq, codes, if◌then◌else◌, none, none≢some, refl, true, ◌↔◌, ◌≡◌, ◌≢◌,
}
use youpass_share_service.Base.Parse.{}
use youpass_share_service.Config.{Outside, checks, duration_env, ends_with, getenv, int_env, load}
use youpass_share_service.Config.Checks.{IsReadable, IsUsable, load_lem}

abbrev pick : Bytes → Bytes → Bytes → Bytes → Bytes
pick k j v other = if bytes_eq k j then v else other

abbrev required : Bytes → Bytes
required k =
    pick k (codes "DATABASE_URL") (codes "postgres://db")
      (pick k (codes "JWT_SECRET") (codes "0123456789abcdef0123456789abcdef") [])

abbrev outside : Outside
outside = record { os_getenv = required; parse_duration = λ s. none; trim_space = λ s. s }

load_lem_example :
    (((load outside).1 ≡ []) ↔ (IsReadable outside × IsUsable outside (load outside).0))
    × (ends_with b'/' (load outside).0.share_base_url ≡ true)
    × All (λ p. p ≢ []) (load outside).0.trusted_proxies
load_lem_example = load_lem outside (λ s n e. absurd (none≢some e))

required_is_enough : (load outside).1 ≡ []
unfolding load int_env duration_env checks getenv bytes_eq
required_is_enough = refl
