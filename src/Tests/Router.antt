-- ===== src/Tests/Router.antt =====
-- The theorems on the routes, on the concrete service with a token of user 1.
use youpass_share_service.Base.{
  Bytes, Option, [], ap, bytes_eq, codes, false, if◌then◌else◌, ltb, none, refl, some, suc, ℕ, ◌++◌,
  ◌==◌, ◌∙◌, ◌∷◌, ◌≡◌, nat_eq, bytes_eq_instance,
}
use youpass_share_service.Outcome.{Outcome}
use youpass_share_service.Http.{Request, Response, no_body, of_link}
use youpass_share_service.Http.Router.{Deps, Site, on_world, required, routes, serve}
use youpass_share_service.Domain.Viewer.{is_ascii, trim_space}
use youpass_share_service.Domain.Link.{Link}
use youpass_share_service.Share.Service.{url}
use youpass_share_service.Base.Parse.{parse_int}
use youpass_share_service.Token.{verify}
use youpass_share_service.Http.Auth.{bearer, require_auth}
use youpass_share_service.Http.Handlers.{respond, to_link_response, update_status_handler}
use youpass_share_service.Http.Router.Revoking.{HidesLink, IsSharePath, patch_hides, served_patch}
use youpass_share_service.Http.Router.Serving.{KeepsOrNames, served_rows}
use youpass_share_service.Memory.Repository.{Repository}
use youpass_share_service.Memory.Cache.{Cache}
use youpass_share_service.Memory.Content.{Content}
use youpass_share_service.Memory.Views.{Views}
use youpass_share_service.Tests.{Env, World₀, code_a, laws, shared, sv}
use youpass_share_service.Tests.Sharing.{disabled, disabled_link, disabling, shared-IsCoherent}
use youpass_share_service.Tests.Api.{add_days, first_visit, manager, plain_jwt, visit}

abbrev deps : Deps Repository Cache Content Views Env ℕ
deps = record {
  share = sv;
  submission = none;
  jwt = plain_jwt;
  tokens = manager;
  allow = λ key limit seconds n. ((ltb n limit, none), suc n);
  rate_limit_per_min = 60;
  ready_check = none;
  enable_dev_token = false;
  trusted_proxies = [];
}

abbrev site : Site Repository Cache Content Views Env ℕ
site = record { world = shared; limits = 0 }

abbrev pub bind : Bytes → Bytes → Option Bytes
bind pattern path = if pattern == codes "/api/v1/shares/:code" then some path else none

abbrev pub signed_visit : Request
signed_visit = record visit { authorization = codes "Bearer " ++ (1000 ∷ 0 ∷ codes "1") }

abbrev pub no_page : Response
no_page = record { status = 404; body = no_body }

served_rows_example :
    KeepsOrNames deps laws add_days signed_visit site
      (serve bind no_page
        (routes deps add_days (codes "0f"))
        (codes "PATCH")
        code_a
        signed_visit
        site).1
      code_a
served_rows_example =
    served_rows deps laws add_days bind no_page (codes "0f") (codes "PATCH") code_a signed_visit
      site code_a shared-IsCoherent

abbrev Answer : Type 0
Answer = Response × Site Repository Cache Content Views Env ℕ

abbrev answer : Request → Site Repository Cache Content Views Env ℕ → Bytes → Answer
answer req s method = serve bind no_page (routes deps add_days (codes "0f")) method code_a req s

is_share_path : IsSharePath bind code_a code_a
unfolding bytes_eq
is_share_path = (refl, refl, refl, refl, refl)

-- The answer to the owner who disables the link.
abbrev turned_off : Answer
turned_off = (
  record { status = 200; body = of_link (to_link_response disabled_link (url sv code_a)) },
  record { world = disabled; limits = 0 },
)

entered :
    required deps add_days
      (on_world deps add_days (update_status_handler sv add_days))
      (record signed_visit { user_id = 0 })
      site
    ≡ on_world deps add_days (update_status_handler sv add_days) signed_visit site
unfolding require_auth bearer verify parse_int trim_space bytes_eq is_ascii
entered = refl

abbrev told : Outcome World₀ Link → Answer
told o =
    let r =
      respond {S = World₀}
        (λ l. record { status = 200; body = of_link (to_link_response l (url sv l.code)) }) o in
    (r.0, record { world = r.1; limits = 0 })

updated : on_world deps add_days (update_status_handler sv add_days) signed_visit site ≡ turned_off
unfolding update_status_handler
updated = ap told disabling

answered : answer signed_visit site (codes "PATCH") ≡ turned_off
answered =
    served_patch deps laws add_days bind no_page (codes "0f") code_a code_a signed_visit site
      is_share_path
    ∙ (entered ∙ updated)

patch_hides_example :
    HidesLink deps laws add_days bind no_page code_a
      (answer first_visit (answer signed_visit site (codes "PATCH")).1 (codes "GET")).0
unfolding youpass_share_service.Memory.Cache.invalidate
patch_hides_example =
    patch_hides deps laws add_days bind no_page (codes "0f") (codes "0f") code_a code_a signed_visit
      first_visit site shared-IsCoherent is_share_path refl
      (ap (λ (x : Answer). x.0.status) answered) (_, refl)
