-- ===== src/Http/Pages.antt =====
-- page.go, share_handler.go (page) and submission_handler.go: the page of a link, whose template is
-- not modelled, and the deletion of a submission.
pub mod Visitors
use youpass_share_service.Base.{
  Bytes, Int64, Option, [], codes, eqb, if◌then◌else◌, is_positive, none, not, some, ℕ, ◌==◌,
  nat_eq, bytes_eq_instance,
}
use youpass_share_service.Base.Parse.{parse_int}
use youpass_share_service.Domain.Error.{}
use youpass_share_service.Domain.Viewer.{Viewer}
use youpass_share_service.Outcome.{Act, ret, throw}
use youpass_share_service.Share.Ports.{}
use youpass_share_service.Share.Service.{Service, World, resolve}
use youpass_share_service.Http.{
  Request, Response, Shown, failure, gone_page, no_body, trouble_page, unknown_page, view_page,
}
use youpass_share_service.Http.Errors.{status_of}
use youpass_share_service.Http.Auth.{Handler}
use youpass_share_service.Http.Handlers.{respond, viewer_from}

-- The answer, with the cookie that it sets.
pub record Page : Type 0 where
  pub status : ℕ
  pub shown : Shown
  pub cookie : Option Bytes

-- `renderPage`'s choice on an error, whose view is nil.
unfoldable pub notice : ℕ → Shown
notice status =
    if eqb status 404 then unknown_page else if eqb status 410 then gone_page else trouble_page

-- The visitor's new ID, for a browser that has neither the header nor the cookie. `fresh` is what
-- randomID draws.
unfoldable pub new_visitor : Request → Bytes → Option Bytes
new_visitor req fresh = elim req.visitor_cookie [
  | none ↦ if req.visitor_header == [] then some fresh else none
  | some c ↦ none
]

unfoldable pub page_viewer : Request → Bytes → Viewer
unfolding new_visitor
page_viewer req fresh = elim (new_visitor req fresh) [
  | none ↦ viewer_from req
  | some id ↦ record (viewer_from req) { visitor_id = id }
]

module _ {R C K V G : Type 0} (sv : Service R C K V G) where
  unfoldable pub page_handler : Request → Bytes → World R C K V G → Page × World R C K V G
  unfolding notice new_visitor page_viewer
  page_handler req fresh w = elim (resolve sv req.code (page_viewer req fresh) w) [
    | ret view w' ↦
        (record { status = 200; shown = view_page view; cookie = new_visitor req fresh }, w')
    | throw e w' ↦
        let status = status_of (some e) in
        (record { status = status; shown = notice status; cookie = new_visitor req fresh }, w')
  ]

-- `delete` of submission_handler.go: `raw` is the path's ID, and `remove` the use case's Delete.
unfoldable pub delete_submission_handler :
    {S : Type 0} → (Int64 → Int64 → Act S (Unit {0})) → Bytes → Handler S
delete_submission_handler remove raw req s =
    let bad : Response = record { status = 400; body = failure (codes "INVALID_ID") [] } in
    elim (parse_int raw) [
      | none ↦ (bad, s)
      | some id ↦
          if not (is_positive id)
          then (bad, s)
          else respond (λ _. record { status = 204; body = no_body }) (remove req.user_id id s)
    ]
