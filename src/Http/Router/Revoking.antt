-- ===== src/Http/Router/Revoking.antt =====
-- router.go: after a request of the router disabled a link, no other request of it shows the link.
use youpass_share_service.Base.{
  Bool, Bytes, Int64, List, Option, [], ap, arith, bytes_eq, codes, false, if◌then◌else◌, inl, inr,
  none, refl, some, subst, sym, true, ◌++◌, ◌∙◌, ◌∷◌, ◌≡◌, ◌≢◌, ◌⊎◌,
}
use youpass_share_service.Domain.Error.{}
use youpass_share_service.Domain.Link.{Time, status_disabled}
use youpass_share_service.Domain.Viewer.{}
use youpass_share_service.Outcome.{}
use youpass_share_service.Share.Manage.{Drops}
use youpass_share_service.Share.Contract.{}
use youpass_share_service.Share.Service.{World}
use youpass_share_service.Share.Coherence.{IsCoherent, IsLawful}
use youpass_share_service.Token.{}
use youpass_share_service.Http.{Request, Response}
use youpass_share_service.Http.Auth.{Handler}
use youpass_share_service.Http.Access.{require_auth-verify}
use youpass_share_service.Http.Handlers.{resolve_handler, update_status_handler}
use youpass_share_service.Http.Visibility.{SaysGone, disabled_answers}
use youpass_share_service.Http.Router.{
  Deps, Route, Site, hit, limiter, on_world, optional, required, routes, serve,
}
use youpass_share_service.Http.Router.Passing.{limiter_next, optional_auth_next}

abbrev share_path : Bytes
share_path = codes "/api/v1/shares/:code"

-- The path is that of link c in the API, and not one of the routes that stand before it.
abbrev pub IsSharePath : (Bytes → Bytes → Option Bytes) → Bytes → Bytes → Type 0
IsSharePath bind p c =
    (bind share_path p ≡ some c)
    × (bind (codes "/healthz") p ≡ none)
    × (bind (codes "/readyz") p ≡ none)
    × (bind (codes "/metrics") p ≡ none)
    × (bind (codes "/s/:code") p ≡ none)

module _ {R C K V G L : Type 0} (d : Deps R C K V G L) (laws : IsLawful d.share)
    (add_days : Time → Int64 → Time) (bind : Bytes → Bytes → Option Bytes)
    (unrouted : Response) where
  abbrev S : Type 0
  S = Site R C K V G L

  -- A request as Gin hands it to the handlers of c.
  abbrev at_code : Bytes → Request → Request
  at_code c req = record req { code = c; user_id = 0 }

  -- A route that does not fit is passed over, and one that fits serves.
  serve-skip :
      (r : Route S) (rs : List (Route S)) (method p : Bytes) (req : Request) (s : S)
      → hit bind unrouted r method p ≡ none
      → serve bind unrouted (r ∷ rs) method p req s ≡ serve bind unrouted rs method p req s
  unfolding serve
  serve-skip r rs method p req s e = rw (serve, e) refl

  serve-hit :
      (r : Route S) (rs : List (Route S)) (method p c : Bytes) (req : Request) (s : S)
      → hit bind unrouted r method p ≡ some c
      → serve bind unrouted (r ∷ rs) method p req s ≡ r.handler (at_code c req) s
  unfolding serve
  serve-hit r rs method p c req s e = rw (serve, e) refl

  serve-dev :
      (b : Bool) (r : Route S) (rs : List (Route S)) (method p : Bytes) (req : Request) (s : S)
      → hit bind unrouted r method p ≡ none
      → serve bind unrouted ((if b then r ∷ [] else []) ++ rs) method p req s
        ≡ serve bind unrouted rs method p req s
  serve-dev true r rs method p req s e = serve-skip r rs method p req s e
  serve-dev false r rs method p req s e = refl

  pub served_patch :
      (fresh p c : Bytes) (req : Request) (s : S)
      → IsSharePath bind p c
      → serve bind unrouted (routes d add_days fresh) (codes "PATCH") p req s
        ≡ required d add_days
            (on_world d add_days (update_status_handler d.share add_days))
            (at_code c req)
            s
  unfolding routes bytes_eq
  served_patch fresh p c req s (here, h, r, m, page) =
      serve-skip _ _ (codes "PATCH") p req s refl
      ∙ (serve-skip _ _ (codes "PATCH") p req s refl
          ∙ (serve-skip _ _ (codes "PATCH") p req s refl
              ∙ (serve-dev d.enable_dev_token _ _ (codes "PATCH") p req s refl
                  ∙ (serve-skip _ _ (codes "PATCH") p req s refl
                      ∙ (serve-skip _ _ (codes "PATCH") p req s refl
                          ∙ (serve-skip _ _ (codes "PATCH") p req s refl
                              ∙ serve-hit _ _ (codes "PATCH") p c req s here))))))

  served_get :
      (fresh p c : Bytes) (req : Request) (s : S)
      → IsSharePath bind p c
      → serve bind unrouted (routes d add_days fresh) (codes "GET") p req s
        ≡ optional d add_days
            (limiter d add_days (on_world d add_days (resolve_handler d.share add_days)))
            (at_code c req)
            s
  unfolding routes bytes_eq
  served_get fresh p c req s (here, h, r, m, page) =
      serve-skip _ _ (codes "GET") p req s h
      ∙ (serve-skip _ _ (codes "GET") p req s r
          ∙ (serve-skip _ _ (codes "GET") p req s m
              ∙ (serve-dev d.enable_dev_token _ _ (codes "GET") p req s refl
                  ∙ (serve-skip _ _ (codes "GET") p req s page
                      ∙ serve-hit _ _ (codes "GET") p c req s here))))

  -- A request that is not answered 401 comes from a user whom its token names.
  let_in :
      (h : Handler (World R C K V G)) (req : Request) (s : S)
      → (required d add_days (on_world d add_days h) req s).0.status ≢ 401
      → (id : Int64) × (required d add_days (on_world d add_days h) req s
          ≡ on_world d add_days h (record req { user_id = id }) s)
  let_in h req s n =
      elim (require_auth-verify d.share.unicode d.jwt d.tokens (d.share.now s.world.env)
        (on_world d add_days h) req s) [
          | inl (id, pos, named, e) ↦ (id, e)
          | inr (away, same) ↦ absurd (n away)
        ]

  -- What a viewer is told of a link that is gone, or that the limit is reached.
  abbrev pub HidesLink : Bytes → Response → Type 0
  HidesLink c r = (r.status ≡ 429) ⊎ SaysGone c r

  got_gone :
      (c : Bytes) (req : Request) (s : S)
      → ((r : Request)
          → r.code ≡ c
          → SaysGone r.code (resolve_handler d.share add_days r s.world).0)
      → HidesLink c
          (optional d add_days
            (limiter d add_days (on_world d add_days (resolve_handler d.share add_days)))
            (at_code c req)
            s).0
  got_gone c req s gone =
      optional_auth_next d.share.unicode _
        (limiter d add_days (on_world d add_days (resolve_handler d.share add_days)))
        (at_code c req) s (λ x. HidesLink c x.0)
        (λ r same.
          limiter_next d add_days (on_world d add_days (resolve_handler d.share add_days)) r s
            (λ x. HidesLink c x.0)
            (λ l. inr (
              subst (λ k. SaysGone k (resolve_handler d.share add_days r s.world).0) same
                (gone r same)))
            (λ l x e. inl e))

  hidden_after :
      (fresh p c : Bytes) (owner visitor : Request) (s : S) (id : Int64) (x : Response × S)
      → IsCoherent d.share laws s.world
      → IsSharePath bind p c
      → owner.status_body ≡ some status_disabled
      → x
        ≡ on_world d add_days
            (update_status_handler d.share add_days)
            (record (at_code c owner) { user_id = id })
            s
      → x.0.status ≡ 200
      → Drops d.share laws c s.world
      → HidesLink c (serve bind unrouted (routes d add_days fresh) (codes "GET") p visitor x.1).0
  hidden_after fresh p c owner visitor s id x coherent path asked e ok₀ drops =
      let req : Request = record (at_code c owner) { user_id = id } in
      let y : Response × S = on_world d add_days (update_status_handler d.share add_days) req s in
      subst
        (λ (z : Response × S).
          z.0.status ≡ 200
          → HidesLink c
              (serve bind unrouted (routes d add_days fresh) (codes "GET") p visitor z.1).0)
        (sym e)
        (λ ok.
          subst (λ (z : Response × S). HidesLink c z.0)
            (sym (served_get fresh p c visitor y.1 path))
            (got_gone c visitor y.1 (λ r same.
              disabled_answers d.share laws add_days req r s.world coherent asked ok drops same)))
        ok₀

  -- On lawful ports and from a coherent state, for a path that is a link's in the API and fits
  -- none of the routes before it, and if the cache does the delete of an `Invalidate` of the code
  -- that finds it as it is before: once a PATCH of the path to disabled was answered 200, a GET of
  -- the path, with any token or none, is answered 410, or 404 where the code is malformed, or 500,
  -- or 429.
  pub patch_hides :
      (owner_fresh fresh p c : Bytes) (owner visitor : Request) (s : S)
      → IsCoherent d.share laws s.world
      → IsSharePath bind p c
      → owner.status_body ≡ some status_disabled
      → (serve bind unrouted (routes d add_days owner_fresh) (codes "PATCH") p owner s).0.status
        ≡ 200
      → Drops d.share laws c s.world
      → HidesLink c
          (serve bind unrouted
            (routes d add_days fresh)
            (codes "GET")
            p
            visitor
            (serve bind unrouted (routes d add_days owner_fresh) (codes "PATCH") p owner s).1).0
  patch_hides owner_fresh fresh p c owner visitor s coherent path asked ok drops =
      let x : Response × S =
        serve bind unrouted (routes d add_days owner_fresh) (codes "PATCH") p owner s in
      let patched = served_patch owner_fresh p c owner s path in
      let (id, entered) =
        let_in (update_status_handler d.share add_days) (at_code c owner) s
          (λ e. omega (arith, ok, ap (λ (y : Response × S). y.0.status) patched, e)) in
      hidden_after fresh p c owner visitor s id x coherent path asked (patched ∙ entered) ok drops
