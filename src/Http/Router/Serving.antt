-- ===== src/Http/Router/Serving.antt =====
-- router.go with its middleware: what a request of any route does to the rows.
use youpass_share_service.Base.{
  All, All-append, Bool, Bytes, Int64, List, Option, Option-cases, [], ap, arith, codes, false,
  if◌then◌else◌, inl, inr, is_positive, none, refl, some, true, ◌∷◌, ◌≡◌, ◌⊎◌,
}
use youpass_share_service.Domain.Error.{}
use youpass_share_service.Domain.Link.{Time}
use youpass_share_service.Domain.Viewer.{}
use youpass_share_service.Outcome.{Act, Post-mono}
use youpass_share_service.Share.Ports.{}
use youpass_share_service.Share.Contract.{Holds, Table}
use youpass_share_service.Share.Service.{World, resolve}
use youpass_share_service.Share.Coherence.{IsCoherent, IsLawful, table_of}
use youpass_share_service.Share.Resolve.{resolve_answers}
use youpass_share_service.Token.{verify}
use youpass_share_service.Http.{Request, Response}
use youpass_share_service.Http.Auth.{Handler, bearer}
use youpass_share_service.Http.Access.{require_auth-verify}
use youpass_share_service.Http.Handlers.{stats_handler}
use youpass_share_service.Http.Pages.{delete_submission_handler, page_handler, page_viewer}
use youpass_share_service.Http.Router.{
  Deps, Route, Site, dev_token, healthz, hit, limiter, measured, on_submissions, on_world, optional,
  page_answer, readyz, required, routes, serve,
}
use youpass_share_service.Http.Router.Passing.{
  Post-answer, limiter_next, optional_auth_next, same_bearer,
}
use youpass_share_service.Http.Router.Authority.{
  IsBounded, IsReader, create_handler-IsBounded, delete_handler-IsBounded, resolve_handler-IsReader,
  same_rows, stats_handler-IsReader, update_status_handler-IsBounded,
}

module _ {R C K V G L : Type 0} (d : Deps R C K V G L) (laws : IsLawful d.share)
    (add_days : Time → Int64 → Time) where
  abbrev S : Type 0
  S = Site R C K V G L

  abbrev pub rows_of : S → Table
  rows_of s = table_of d.share laws s.world

  -- Whom the bearer token of the request names.
  abbrev pub Names : Request → S → Int64 → Type 0
  Names req s id =
      (is_positive id ≡ true)
      × (verify d.jwt d.tokens (d.share.now s.world.env) (bearer d.share.unicode req) ≡ inr id)

  -- The row of c is as before, or is now of a link of the user whom the token names.
  abbrev pub KeepsOrNames : Request → S → S → Bytes → Type 0
  KeepsOrNames req s s' c =
      (rows_of s' c ≡ rows_of s c)
      ⊎ ((id : Int64) × Names req s id × Holds (rows_of s') c (λ l. l.owner_id ≡ id))

  abbrev pub ChangesNamed : Request → S → S → Type 0
  ChangesNamed req s s' = (c : Bytes) → KeepsOrNames req s s' c

  abbrev pub IsAuthorized : Handler S → Type 0
  IsAuthorized h =
      (req : Request) (s : S) → IsCoherent d.share laws s.world → ChangesNamed req s (h req s).1

  required-IsAuthorized :
      (h : Handler (World R C K V G))
      → IsBounded d.share laws add_days h
      → IsAuthorized (required d add_days (on_world d add_days h))
  required-IsAuthorized h bounded req s coherent c =
      elim (require_auth-verify d.share.unicode d.jwt d.tokens (d.share.now s.world.env)
        (on_world d add_days h) req s) [
          | inl (id, pos, named, e) ↦
              rw (e) (elim (bounded (record req { user_id = id }) s.world coherent c) [
                | inl same ↦ inl same
                | inr own ↦ inr (id, (pos, named), own)
              ])
          | inr (away, same) ↦ inl (ap (λ (x : S). rows_of x c) same)
        ]

  -- What a handler of the submissions does leaves the rows.
  submissions-IsAuthorized :
      (h : Handler K) → IsAuthorized (required d add_days (on_submissions d add_days h))
  submissions-IsAuthorized h req s coherent c =
      elim (require_auth-verify d.share.unicode d.jwt d.tokens (d.share.now s.world.env)
        (on_submissions d add_days h) req s) [
          | inl (id, pos, named, e) ↦ rw (e) (inl refl)
          | inr (away, same) ↦ inl (ap (λ (x : S). rows_of x c) same)
        ]

  limiter_rows :
      (h : Handler (World R C K V G)) (req : Request) (s : S)
      → IsReader d.share laws add_days h
      → IsCoherent d.share laws s.world
      → rows_of (limiter d add_days (on_world d add_days h) req s).1 ≡ rows_of s
  limiter_rows h req s reads coherent =
      limiter_next d add_days (on_world d add_days h) req s (λ r. rows_of r.1 ≡ rows_of s)
        (λ l. reads req s.world coherent) (λ l r e. refl)

  optional-IsAuthorized :
      (h : Handler (World R C K V G))
      → IsReader d.share laws add_days h
      → IsAuthorized (optional d add_days (limiter d add_days (on_world d add_days h)))
  optional-IsAuthorized h reads req s coherent c = inl (
      ap (λ (t : Table). t c)
        (optional_auth_next d.share.unicode _ (limiter d add_days (on_world d add_days h)) req s
          (λ r. rows_of r.1 ≡ rows_of s) (λ r _. limiter_rows h r s reads coherent)))

  page_answer-IsReader :
      (fresh : Bytes) → IsReader d.share laws add_days (page_answer d add_days fresh)
  unfolding page_handler
  page_answer-IsReader fresh req w h =
      Post-answer _ _ (resolve d.share req.code (page_viewer req fresh) w)
        (λ w'. table_of d.share laws w' ≡ table_of d.share laws w)
        (Post-mono _ _ _ _ (resolve d.share req.code (page_viewer req fresh) w)
          (resolve_answers d.share laws req.code (page_viewer req fresh) w h)
          (λ view w' (_, settled). settled.0) (λ e w' (_, settled). settled.0))

  still-IsAuthorized :
      (h : Handler S) → ((req : Request) (s : S) → (h req s).1 ≡ s) → IsAuthorized h
  still-IsAuthorized h still req s coherent c = inl (ap (λ (x : S). rows_of x c) (still req s))

  readyz_still : (req : Request) (s : S) → (readyz d add_days req s).1 ≡ s
  unfolding readyz
  readyz_still req s = ground arith

  dev_token_still : (req : Request) (s : S) → (dev_token d add_days req s).1 ≡ s
  unfolding dev_token
  dev_token_still req s = ground arith

  routes-IsAuthorized :
      (fresh : Bytes) → All (λ (r : Route S). IsAuthorized r.handler) (routes d add_days fresh)
  unfolding routes healthz
  routes-IsAuthorized fresh = (
    still-IsAuthorized (healthz d add_days) (λ req s. refl),
    (
      still-IsAuthorized (readyz d add_days) readyz_still,
      (
        still-IsAuthorized (measured d add_days) (λ req s. refl),
        All-append (λ (r : Route S). IsAuthorized r.handler) _ _ (dev d.enable_dev_token)
            (
              optional-IsAuthorized _ (page_answer-IsReader fresh),
              (
                optional-IsAuthorized _ (resolve_handler-IsReader d.share laws add_days),
                (
                  required-IsAuthorized _ (create_handler-IsBounded d.share laws add_days),
                  (
                    required-IsAuthorized _ (update_status_handler-IsBounded d.share laws add_days),
                    (
                      required-IsAuthorized _ (delete_handler-IsBounded d.share laws add_days),
                      (required-IsAuthorized _ stats_bounded, with_submission d.submission),
                    ),
                  ),
                ),
              ),
            ),
      ),
    ),
  )
    where
      stats_bounded : IsBounded d.share laws add_days (stats_handler d.share add_days)
      stats_bounded req w h =
          same_rows req.user_id _ _ (stats_handler-IsReader d.share laws add_days req w h)

      dev :
          (b : Bool)
          → All
              (λ (r : Route S). IsAuthorized r.handler)
              (if b
                then (record {
                  method = codes "POST";
                  path = codes "/api/v1/dev/token";
                  handler = dev_token d add_days;
                })
                  ∷ []
                else [])
      dev true = (still-IsAuthorized (dev_token d add_days) dev_token_still, tt)
      dev false = tt

      with_submission :
          (o : Option (Int64 → Int64 → Act K (Unit {0})))
          → All
              (λ (r : Route S). IsAuthorized r.handler)
              (elim o [
                | none ↦ []
                | some remove ↦
                    (record {
                      method = codes "DELETE";
                      path = codes "/api/v1/submissions/:id";
                      handler = required d add_days (
                          on_submissions d add_days
                            (λ req. delete_submission_handler remove req.code req));
                    })
                    ∷ []
              ])
      with_submission none = tt
      with_submission (some remove) = (submissions-IsAuthorized _, tt)

  serve-IsAuthorized :
      (bind : Bytes → Bytes → Option Bytes) (unrouted : Response) (rs : List (Route S))
      (method path : Bytes)
      → All (λ (r : Route S). IsAuthorized r.handler) rs
      → IsAuthorized (serve bind unrouted rs method path)
  unfolding serve
  serve-IsAuthorized bind unrouted [] method path all req s h c = inl refl
  serve-IsAuthorized bind unrouted (r ∷ rs) method path all req s h c =
      elim (Option-cases (hit bind unrouted r method path)) [
        | inl e ↦ rw (e, serve) (serve-IsAuthorized bind unrouted rs method path all.1 req s h c)
        | inr (param, e) ↦
            rw (e, serve)
              (rw (same_bearer d.share.unicode req param) at
                (all.0 (record req { code = param; user_id = 0 }) s h c))
      ]

  -- On lawful ports and from a coherent state, whichever route of the router serves a request, or
  -- none: every row of the links is as before, or is now the row of a link whose owner is the
  -- user, with a positive ID, that the request's bearer token names.
  pub served_rows :
      (bind : Bytes → Bytes → Option Bytes) (unrouted : Response) (fresh method path : Bytes)
      (req : Request) (s : S) (c : Bytes)
      → IsCoherent d.share laws s.world
      → KeepsOrNames req s (serve bind unrouted (routes d add_days fresh) method path req s).1 c
  served_rows bind unrouted fresh method path req s c coherent =
      serve-IsAuthorized bind unrouted (routes d add_days fresh) method path
        (routes-IsAuthorized fresh) req s coherent c
