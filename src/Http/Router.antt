-- ===== src/Http/Router.antt =====
-- router.go: the routes with their middleware, the answers of /healthz and /readyz, and devToken.
-- Gin's matching of a path, its check of the proxies and its answer where no route fits are
-- parameters.
pub mod Passing
pub mod Authority
pub mod Serving
pub mod Revoking
use Prim.Native.String.{String}
use youpass_share_service.Base.{
  Bool, Bytes, Int64, List, Option, [], codes, if◌then◌else◌, inl, inr, none, not, some, ℕ, ◌++◌,
  ◌==◌, ◌∷◌, ◌⊎◌, nat_eq, bytes_eq_instance,
}
use youpass_share_service.Domain.Error.{Error}
use youpass_share_service.Domain.Link.{Time}
use youpass_share_service.Domain.Viewer.{key}
use youpass_share_service.Outcome.{Act}
use youpass_share_service.Share.Ports.{}
use youpass_share_service.Share.Service.{Service, World}
use youpass_share_service.Token.{Jwt, Manager, issue, verify}
use youpass_share_service.Http.{Response, failure, health, html, metrics, of_token}
use youpass_share_service.Http.Errors.{}
use youpass_share_service.Http.Auth.{Handler, optional_auth, rate_limit, require_auth}
use youpass_share_service.Http.Handlers.{
  create_handler, delete_handler, resolve_handler, stats_handler, update_status_handler,
}
use youpass_share_service.Http.Pages.{delete_submission_handler, page_handler}

-- What the handlers work on: what is behind the ports, and the limiter's state.
pub record Site (R C K V G L : Type 0) : Type 0 where
  pub world : World R C K V G
  pub limits : L

pub record Route (S : Type 0) : Type 0 where
  pub method : Bytes
  pub path : Bytes
  pub handler : Handler S

-- `submission` is the use case's Delete, `allow` the limiter's Allow with a window in seconds, and
-- `ready_check` gives the text of an error.
pub record Deps (R C K V G L : Type 0) : Type 0 where
  pub share : Service R C K V G
  pub submission : Option (Int64 → Int64 → Act K (Unit {0}))
  pub jwt : Jwt
  pub tokens : Manager
  pub allow : Bytes → Int64 → ℕ → L → (Bool × Option Error) × L
  pub rate_limit_per_min : Int64
  pub ready_check : Option (Site R C K V G L → Option Bytes)
  pub enable_dev_token : Bool
  pub trusted_proxies : List Bytes

module _ {R C K V G L : Type 0} (d : Deps R C K V G L) (add_days : Time → Int64 → Time) where
  abbrev S : Type 0
  S = Site R C K V G L

  -- The clock of the site.
  abbrev clock : S → Time
  clock s = d.share.now s.world.env

  abbrev pub on_world : Handler (World R C K V G) → Handler S
  on_world h req s = ((h req s.world).0, record s { world = (h req s.world).1 })

  abbrev pub on_submissions : Handler K → Handler S
  on_submissions h req s = (
    (h req s.world.submissions).0,
    record s { world = record s.world { submissions = (h req s.world.submissions).1 } },
  )

  abbrev pub on_limits : (L → (Bool × Option Error) × L) → S → (Bool × Option Error) × S
  on_limits m s = ((m s.limits).0, record s { limits = (m s.limits).1 })

  unfoldable pub healthz : Handler S
  healthz req s = (record { status = 200; body = health (codes "ok") none }, s)

  -- promhttp's handler
  abbrev pub measured : Handler S
  measured req s = (record { status = 200; body = metrics }, s)

  unfoldable pub readyz : Handler S
  readyz req s =
      let ready : Response × S = (record { status = 200; body = health (codes "ready") none }, s) in
      elim d.ready_check [
        | none ↦ ready
        | some check ↦ elim (check s) [
          | none ↦ ready
          | some message ↦
              (record { status = 503; body = health (codes "not ready") (some message) }, s)
        ]
      ]

  unfoldable pub dev_token : Handler S
  dev_token req s = elim req.token_body [
    | none ↦ (record { status = 400; body = failure (codes "INVALID_REQUEST") [] }, s)
    | some user_id ↦ elim (issue d.jwt d.tokens (clock s) user_id) [
      | inl e ↦ (record { status = 500; body = failure (codes "INTERNAL_ERROR") [] }, s)
      | inr (signed, exp) ↦ (record { status = 200; body = of_token signed exp }, s)
    ]
  ]

  abbrev pub required : Handler S → Handler S
  required next req s = require_auth d.share.unicode (verify d.jwt d.tokens (clock s)) next req s

  abbrev pub optional : Handler S → Handler S
  optional next req s = optional_auth d.share.unicode (verify d.jwt d.tokens (clock s)) next req s

  abbrev pub limiter : Handler S → Handler S
  limiter next req s =
      rate_limit d.share.unicode (verify d.jwt d.tokens (clock s))
        (λ key. on_limits (d.allow key d.rate_limit_per_min 60)) (codes "share") next req s

  -- The page's answer, whose new cookie would have the ID `fresh`.
  abbrev pub page_answer : Bytes → Handler (World R C K V G)
  page_answer fresh req w =
      let page = (page_handler d.share req fresh w).0 in
      (
        record { status = page.status; body = html page.shown page.cookie },
        (page_handler d.share req fresh w).1,
      )

  abbrev route : String → String → Handler S → Route S
  route method path handler = record { method = codes method; path = codes path; handler = handler }

  -- The routes of `NewRouter`, in a request for which randomID draws `fresh`.
  unfoldable pub routes : Bytes → List (Route S)
  routes fresh =
      route "GET" "/healthz" healthz
      ∷ route "GET" "/readyz" readyz
      ∷ route "GET" "/metrics" measured
      ∷ ((if d.enable_dev_token then route "POST" "/api/v1/dev/token" dev_token ∷ [] else [])
          ++ (route "GET" "/s/:code" (optional (limiter (on_world (page_answer fresh))))
              ∷ route "GET" "/api/v1/shares/:code"
                  (optional (limiter (on_world (resolve_handler d.share add_days))))
              ∷ route "POST" "/api/v1/shares"
                  (required (on_world (create_handler d.share add_days)))
              ∷ route "PATCH" "/api/v1/shares/:code"
                  (required (on_world (update_status_handler d.share add_days)))
              ∷ route "DELETE" "/api/v1/shares/:code"
                  (required (on_world (delete_handler d.share add_days)))
              ∷ route "GET" "/api/v1/shares/:code/stats"
                  (required (on_world (stats_handler d.share add_days)))
              ∷ elim d.submission [
                | none ↦ []
                | some remove ↦
                    route "DELETE" "/api/v1/submissions/:id" (
                      required
                        (on_submissions (λ req. delete_submission_handler remove req.code req)))
                    ∷ []
              ]))

  -- `NewRouter`: `set_trusted` is Gin's SetTrustedProxies.
  unfoldable pub new_router : (List Bytes → Option Error) → Error ⊎ (Bytes → List (Route S))
  new_router set_trusted = elim (set_trusted d.trusted_proxies) [
    | none ↦ inr routes
    | some e ↦ inl e
  ]

-- Gin's Engine: `bind` matches a path with a route's and gives the value of its parameter.
module _ {S : Type 0} (bind : Bytes → Bytes → Option Bytes) (unrouted : Response) where
  abbrev pub hit : Route S → Bytes → Bytes → Option Bytes
  hit r method path = if r.method == method then bind r.path path else none

  unfoldable pub serve : List (Route S) → Bytes → Bytes → Handler S
  serve [] method path req s = (unrouted, s)
  serve (r ∷ rs) method path req s = elim (hit r method path) [
    | none ↦ serve rs method path req s
    | some param ↦ r.handler (record req { code = param; user_id = 0 }) s
  ]
