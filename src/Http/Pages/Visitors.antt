-- ===== src/Http/Pages/Visitors.antt =====
-- share_handler.go, page and resolve: the page is the resolved link for the visitor it names.
use youpass_share_service.Base.{
  Bool-cases, Bytes, Int64, Option, [], arith, bytes_eq, eq_of_bytes_eq, false, inl, inr, none,
  refl, some, sym, ◌≡◌, ◌≢◌,
}
use youpass_share_service.Domain.Error.{}
use youpass_share_service.Domain.Link.{Time}
use youpass_share_service.Domain.Viewer.{}
use youpass_share_service.Outcome.{Outcome, ret, throw}
use youpass_share_service.Share.Ports.{SharedView}
use youpass_share_service.Share.Service.{Service, World, resolve}
use youpass_share_service.Http.{Request, Response, of_view, view_page}
use youpass_share_service.Http.Errors.{status_of, write_error-status_of}
use youpass_share_service.Http.Auth.{}
use youpass_share_service.Http.Handlers.{
  resolve_handler, respond, to_shared_view_response, viewer_from,
}
use youpass_share_service.Http.Pages.{Page, new_visitor, notice, page_handler, page_viewer}

-- The request as the browser sends it once it has the cookie.
abbrev pub returning : Request → Option Bytes → Request
returning req none = req
returning req (some id) = record req { visitor_cookie = some id }

not_empty : (s : Bytes) → s ≢ [] → bytes_eq s [] ≡ false
not_empty s n = elim (Bool-cases (bytes_eq s [])) [
  | inl q ↦ absurd (n (eq_of_bytes_eq s [] q))
  | inr q ↦ q
]

page_viewer-viewer_from :
    (req : Request) (fresh : Bytes)
    → fresh ≢ []
    → page_viewer req fresh ≡ viewer_from (returning req (new_visitor req fresh))
unfolding page_viewer new_visitor viewer_from
page_viewer-viewer_from req fresh n = ground (arith, not_empty fresh n)

returning_code : (req : Request) (o : Option Bytes) → (returning req o).code ≡ req.code
returning_code req none = refl
returning_code req (some id) = refl

module _ {R C K V G : Type 0} (sv : Service R C K V G) (add_days : Time → Int64 → Time) where
  answers_alike :
      (req : Request) (fresh : Bytes) (o : Outcome (World R C K V G) SharedView)
      → let page : Page × World R C K V G = elim o [
        | ret view w ↦
            (record { status = 200; shown = view_page view; cookie = new_visitor req fresh }, w)
        | throw e w ↦ (
          record {
            status = status_of (some e);
            shown = notice (status_of (some e));
            cookie = new_visitor req fresh;
          },
          w,
        )
      ] in
        let api : Response × World R C K V G =
          respond
            (λ view. record { status = 200; body = of_view (to_shared_view_response view) })
            o in
        (page.0.status ≡ api.0.status) × (page.1 ≡ api.1)
  answers_alike req fresh (ret view w) = (refl, refl)
  answers_alike req fresh (throw e w) = (sym (write_error-status_of e), refl)

  -- If the new visitor's ID is not the empty text: the page's answer to a browser has the status,
  -- and leaves the state, of the API's answer to the same browser with the cookie that the page
  -- sets, if it sets one.
  pub page_handler-resolve_handler :
      (req : Request) (fresh : Bytes) (w : World R C K V G)
      → fresh ≢ []
      → ((page_handler sv req fresh w).0.status
          ≡ (resolve_handler sv add_days (returning req (new_visitor req fresh)) w).0.status)
        × ((page_handler sv req fresh w).1
            ≡ (resolve_handler sv add_days (returning req (new_visitor req fresh)) w).1)
  unfolding page_handler resolve_handler
  page_handler-resolve_handler req fresh w n =
      let later = returning req (new_visitor req fresh) in
      let same : resolve sv req.code (page_viewer req fresh) w
          ≡ resolve sv later.code (viewer_from later) w =
        rw (returning_code, page_viewer-viewer_from req fresh n) refl in
      rw (← same) (answers_alike req fresh (resolve sv req.code (page_viewer req fresh) w))
