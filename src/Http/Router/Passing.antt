-- ===== src/Http/Router/Passing.antt =====
-- router.go with middleware/: what a handler behind the optional authentication and the limiter
-- answers.
use youpass_share_service.Base.{
  Bool, Bool-cases, Bytes, Int64, Option, [], codes, false, inl, inr, none, refl, some, true, ◌++◌,
  ◌==◌, ◌∷◌, ◌≡◌, ◌⊎◌, nat_eq, bytes_eq_instance,
}
use youpass_share_service.Domain.Error.{Error}
use youpass_share_service.Domain.Link.{Time}
use youpass_share_service.Domain.Viewer.{Unicode}
use youpass_share_service.Outcome.{Outcome, Post, ret, throw}
use youpass_share_service.Http.{Request, Response}
use youpass_share_service.Token.{verify}
use youpass_share_service.Http.Auth.{Handler, bearer, judged, optional_auth, rate_limit}
use youpass_share_service.Http.Router.{Deps, Site, limiter}

pub same_bearer :
    (u : Unicode) (req : Request) (param : Bytes)
    → bearer u (record req { code = param; user_id = 0 }) ≡ bearer u req
unfolding bearer
same_bearer u req param = refl

-- The optional authentication goes on, as whoever.
pub optional_auth_next :
    {S : Type 0} (u : Unicode) (v : Bytes → Error ⊎ Int64) (next : Handler S) (req : Request)
    (s : S) (P : Response × S → Type 0)
    → ((r : Request) → r.code ≡ req.code → P (next r s))
    → P (optional_auth u v next req s)
unfolding optional_auth
optional_auth_next u v next req s P all = elim (Bool-cases (bearer u req == [])) [
  | inl q ↦ rw (optional_auth, q) (all req refl)
  | inr q ↦ rw (optional_auth, q) (all _ (kept (v (bearer u req))))
]
  where
    kept :
        (r : Error ⊎ Int64)
        → (elim r as (λ _. Request) [ inl e ↦ req | inr id ↦ record req { user_id = id } ]).code
          ≡ req.code
    kept (inl e) = refl
    kept (inr id) = refl

-- The limiter goes on or answers 429, and changes nothing but its own counts.
pub limiter_next :
    {R C K V G L : Type 0} (d : Deps R C K V G L) (add_days : Time → Int64 → Time)
    (next : Handler (Site R C K V G L)) (req : Request) (s : Site R C K V G L)
    (P : Response × Site R C K V G L → Type 0)
    → ((l : L) → P (next req (record s { limits = l })))
    → ((l : L) (r : Response) → r.status ≡ 429 → P (r, record s { limits = l }))
    → P (limiter d add_days next req s)
unfolding rate_limit
limiter_next {L = L} d add_days next req s P on refused =
    answered (d.allow (codes "share" ++ (b':' ∷ req.client_ip)) d.rate_limit_per_min 60 s.limits)
  where
    answered :
        (a : (Bool × Option Error) × L)
        → P (
            judged d.share.unicode
              (verify d.jwt d.tokens (d.share.now s.world.env))
              next
              req
              (a.0, record s { limits = a.1 }))
    answered ((allowed, some x), l) = on l
    answered ((true, none), l) = on l
    answered ((false, none), l) = refused l _ refl

-- The state that a call leaves, whatever is answered.
pub Post-answer :
    {W A X : Type 0} (f : A → X) (g : Error → X) (o : Outcome W A) (P : W → Type 0)
    → Post o (λ _ w. P w) (λ _ w. P w)
    → P (elim o as (λ _. X × W) [ ret a w ↦ (f a, w) | throw e w ↦ (g e, w) ]).1
Post-answer f g (ret a w) P h = h
Post-answer f g (throw e w) P h = h
