-- ===== src/Http/Handlers.antt =====
-- share_handler.go and dto.go: the handlers of the share API over the use cases. The access headers
-- are constant.
use youpass_share_service.Base.{
  Bytes, Int64, Option, [], codes, if◌then◌else◌, is_positive, none, not, some, ℕ, ◌++◌, ◌==◌, ◌∷◌,
  nat_eq, bytes_eq_instance,
}
use youpass_share_service.Domain.Error.{}
use youpass_share_service.Domain.Link.{Link, Time}
use youpass_share_service.Domain.Viewer.{Viewer}
use youpass_share_service.Outcome.{Outcome, ret, throw}
use youpass_share_service.Share.Ports.{SharedView}
use youpass_share_service.Share.Service.{
  Service, World, create, delete, resolve, set_status, stats, url,
}
use youpass_share_service.Http.{
  CreateRequest, LinkResponse, Request, Response, SharedViewResponse, failure, no_body, of_link,
  of_stats, of_view,
}
use youpass_share_service.Http.Errors.{write_error}
use youpass_share_service.Http.Auth.{Handler}

-- c.Cookie(visitorCookie), with the empty text of an error
abbrev cookie_of : Option Bytes → Bytes
cookie_of none = []
cookie_of (some c) = c

unfoldable pub viewer_from : Request → Viewer
viewer_from req =
    let header = req.visitor_header in
    let cookie = cookie_of req.visitor_cookie in
    let id =
      if not (header == [])
      then header
      else if not (cookie == [])
      then cookie
      else req.client_ip ++ (b'|' ∷ req.user_agent) in
    record { user_id = req.user_id; visitor_id = id; user_agent = req.user_agent }

unfoldable pub to_link_response : Link → Bytes → LinkResponse
to_link_response l url = record {
  code = l.code;
  url = url;
  status = l.status;
  resource_type = l.resource_type;
  resource_id = l.resource_id;
  expires_at = l.expires_at;
  created_at = l.created_at;
}

unfoldable pub to_shared_view_response : SharedView → SharedViewResponse
to_shared_view_response v = record {
  code = v.code;
  owner_name = v.owner_name;
  kind = v.kind;
  title = v.title;
  content = v.content;
  band_score = v.band_score;
  feedback = v.feedback;
  shared_at = v.shared_at;
}

-- `if err != nil { writeError(...); return }`, and else the answer of the result.
abbrev pub respond : {S A : Type 0} → (A → Response) → Outcome S A → Response × S
respond f (ret a s) = (f a, s)
respond f (throw e s) = (write_error e, s)

-- `add_days` is time.Time's AddDate(0, 0, n), which knows the calendar.
module _ {R C K V G : Type 0} (sv : Service R C K V G) (add_days : Time → Int64 → Time) where
  abbrev S : Type 0
  S = World R C K V G

  unfoldable pub resolve_handler : Handler S
  resolve_handler req w =
      respond (λ view. record { status = 200; body = of_view (to_shared_view_response view) })
        (resolve sv req.code (viewer_from req) w)

  -- The expiry that a request asks for.
  abbrev expiry : CreateRequest → Time → Option Time
  expiry body now =
      if is_positive body.expires_in_days then some (add_days now body.expires_in_days) else none

  abbrev link_answer : ℕ → Link → Response
  link_answer status l = record {
    status = status;
    body = of_link (to_link_response l (url sv l.code));
  }

  unfoldable pub create_handler : Handler S
  create_handler req w = elim req.create_body [
    | none ↦ (record { status = 400; body = failure (codes "INVALID_REQUEST") [] }, w)
    | some body ↦
        respond (λ (l, created). link_answer (if created then 201 else 200) l)
          (create sv
            (record {
              owner_id = req.user_id;
              resource_type = body.resource_type;
              resource_id = body.resource_id;
              expires_at = expiry body (sv.now w.env);
            })
            w)
  ]

  unfoldable pub update_status_handler : Handler S
  update_status_handler req w = elim req.status_body [
    | none ↦ (record { status = 400; body = failure (codes "INVALID_STATUS") [] }, w)
    | some st ↦ respond (link_answer 200) (set_status sv req.user_id req.code st w)
  ]

  unfoldable pub delete_handler : Handler S
  delete_handler req w =
      respond (λ _. record { status = 204; body = no_body }) (delete sv req.user_id req.code w)

  unfoldable pub stats_handler : Handler S
  stats_handler req w =
      respond
        (λ st. record {
          status = 200;
          body = of_stats (record { total_views = st.total_views; unique_today = st.unique_today });
        })
        (stats sv req.user_id req.code w)
