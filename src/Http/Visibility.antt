-- ===== src/Http/Visibility.antt =====
-- What the share API tells of links that are disabled, or that are somebody else's.
use youpass_share_service.Base.{
  Bytes, Int64, ap, arith, false, inl, inr, refl, some, subst, ℕ, ◌∙◌, ◌≡◌, ◌≤◌, ◌⊎◌,
}
use youpass_share_service.Domain.Error.{
  Error, already_shared, cache_miss, code_exhausted, duplicate_code, err_is, forbidden, foreign,
  invalid_resource_type, invalid_status, link_gone, link_not_found, submission_not_found,
  token_expired, token_invalid, unavailable,
}
use youpass_share_service.Domain.Link.{Link, Status, Time, status_disabled}
use youpass_share_service.Domain.Code.{valid_code}
use youpass_share_service.Domain.Viewer.{}
use youpass_share_service.Outcome.{Outcome, Post, ret, throw}
use youpass_share_service.Share.Ports.{SharedView}
use youpass_share_service.Share.Contract.{Holds, IsFault, Misses, Owns}
use youpass_share_service.Share.Service.{Service, World, delete, resolve, set_status}
use youpass_share_service.Share.Coherence.{IsCoherent, IsLawful, table_of}
use youpass_share_service.Share.Resolve.{Settled}
use youpass_share_service.Share.Manage.{Drops, Rewrites, delete_lem}
use youpass_share_service.Share.Revoke.{IsGone, disable_revokes}
use youpass_share_service.Token.{}
use youpass_share_service.Token.Laws.{}
use youpass_share_service.Http.{Request, Response}
use youpass_share_service.Http.Errors.{status_of, write_error, write_error-status_of}
use youpass_share_service.Http.Auth.{}
use youpass_share_service.Http.Handlers.{
  delete_handler, resolve_handler, respond, update_status_handler, viewer_from,
}

foreign_status : (n : ℕ) → status_of (some (foreign n)) ≡ 500
unfolding status_of err_is
foreign_status n = ground arith

unavailable_status : status_of (some unavailable) ≡ 500
unfolding status_of err_is
unavailable_status = refl

-- A fault is an internal error.
IsFault-status : (e : Error) → IsFault e → status_of (some e) ≡ 500
IsFault-status unavailable f = unavailable_status
IsFault-status (foreign n) f = foreign_status n
IsFault-status link_not_found f = absurd f
IsFault-status link_gone f = absurd f
IsFault-status forbidden f = absurd f
IsFault-status invalid_resource_type f = absurd f
IsFault-status invalid_status f = absurd f
IsFault-status submission_not_found f = absurd f
IsFault-status cache_miss f = absurd f
IsFault-status duplicate_code f = absurd f
IsFault-status already_shared f = absurd f
IsFault-status code_exhausted f = absurd f
IsFault-status token_invalid f = absurd f
IsFault-status token_expired f = absurd f

status_of-error : (e : Error) → 400 ≤ status_of (some e)
unfolding status_of
status_of-error e = ground arith

-- No error is answered as a success.
write_error-status : (e : Error) → 400 ≤ (write_error e).status
write_error-status e = rw (write_error-status_of e) (status_of-error e)

gone_status : status_of (some link_gone) ≡ 410
unfolding status_of err_is
gone_status = refl

missing_status : status_of (some link_not_found) ≡ 404
unfolding status_of err_is
missing_status = refl

-- What a viewer is told of a link that is gone.
abbrev pub SaysGone : Bytes → Response → Type 0
SaysGone code r =
    (r.status ≡ 410) ⊎ (((r.status ≡ 404) × (valid_code code ≡ false)) ⊎ (r.status ≡ 500))

IsGone-says : (code : Bytes) (e : Error) → IsGone code e → SaysGone code (write_error e)
IsGone-says code e (inl p) =
    inl (write_error-status_of e ∙ ap (λ (x : Error). status_of (some x)) p ∙ gone_status)
IsGone-says code e (inr (inl (p, bad))) =
    inr (
      inl
        (write_error-status_of e ∙ ap (λ (x : Error). status_of (some x)) p ∙ missing_status, bad))
IsGone-says code e (inr (inr f)) = inr (inr (write_error-status_of e ∙ IsFault-status e f))

module _ {R C K V G : Type 0} (sv : Service R C K V G) (laws : IsLawful sv)
    (add_days : Time → Int64 → Time) where
  ok_ret :
      {A : Type 0} (f : A → Response) (o : Outcome (World R C K V G) A)
      → (respond f o).0.status ≡ 200
      → (a : A) × (o ≡ ret a (respond f o).1)
  ok_ret f (ret a w) h = (a, refl)
  ok_ret f (throw e w) h = absurd (omega (arith, write_error-status e))

  resolve-says :
      (code : Bytes) (o : Outcome (World R C K V G) SharedView) (f : SharedView → Response)
      → Post o (λ _ _. ⊥) (λ e _. IsGone code e)
      → SaysGone code (respond f o).0
  resolve-says code (ret view w) f h = absurd h
  resolve-says code (throw e w) f h = IsGone-says code e h

  -- A 200 from the update means that SetStatus succeeded.
  updated :
      (req : Request) (st : Status) (w : World R C K V G)
      → req.status_body ≡ some st
      → (update_status_handler sv add_days req w).0.status ≡ 200
      → (l : Link) × (set_status sv req.user_id req.code st w
          ≡ ret l (update_status_handler sv add_days req w).1)
  unfolding update_status_handler
  updated req st w bound ok =
      rw (update_status_handler, bound)
        (ok_ret _ (set_status sv req.user_id req.code st w)
          (rw (update_status_handler, bound) at ok))

  -- On lawful ports and from a coherent state, if the cache does the delete of an `Invalidate` of
  -- the code that finds it as it is before: after a request that sets the status to disabled was
  -- answered 200, a request to resolve the code, by anyone, is answered 410, or 404 where the code
  -- is malformed, or 500.
  pub disabled_answers :
      (owner : Request) (visitor : Request) (w : World R C K V G)
      → IsCoherent sv laws w
      → owner.status_body ≡ some status_disabled
      → (update_status_handler sv add_days owner w).0.status ≡ 200
      → Drops sv laws owner.code w
      → visitor.code ≡ owner.code
      → SaysGone visitor.code
          (resolve_handler sv add_days visitor (update_status_handler sv add_days owner w).1).0
  unfolding resolve_handler
  disabled_answers owner visitor w h bound ok drops same =
      let w₁ = (update_status_handler sv add_days owner w).1 in
      let (l, done) = updated owner status_disabled w bound ok in
      subst
        (λ (c : Bytes).
          Post (resolve sv c (viewer_from visitor) w₁) (λ _ _. ⊥) (λ e _. IsGone c e)
          → SaysGone visitor.code (resolve_handler sv add_days visitor w₁).0)
        same (resolve-says visitor.code (resolve sv visitor.code (viewer_from visitor) w₁) _)
        (disable_revokes sv laws owner.user_id owner.code (viewer_from visitor) w w₁ l h done drops)

  stranger_deletes :
      (req : Request) (o : Outcome (World R C K V G) (Unit {0})) (w : World R C K V G)
      (f : Unit {0} → Response)
      → ¬ Holds (table_of sv laws w) req.code (Owns req.user_id)
      → Post o
          (λ _ w'.
            (t : Time) × Holds (table_of sv laws w) req.code (λ m.
              Owns req.user_id m
              × Rewrites sv laws req.code (record m { deleted_at = some t }) w w'))
          (λ e w'.
            Misses link_not_found e (Holds (table_of sv laws w) req.code (Owns req.user_id))
            × Settled sv laws w w')
      → (((respond f o).0 ≡ write_error link_not_found) ⊎ ((respond f o).0.status ≡ 500))
        × (table_of sv laws (respond f o).1 ≡ table_of sv laws w)
  stranger_deletes req (ret _ w') w f stranger (t, (m, at, (owns, _))) =
      absurd (stranger (m, at, owns))
  stranger_deletes req (throw e w') w f stranger (inl (p, _), settled) =
      (inl (ap write_error p), settled.0)
  stranger_deletes req (throw e w') w f stranger (inr fault, settled) =
      (inr (write_error-status_of e ∙ IsFault-status e fault), settled.0)

  -- On lawful ports and from a coherent state: a request to delete a link by a user who owns no
  -- live link of the code is answered just as for a link that does not exist, or 500, and changes
  -- no row.
  pub stranger_delete :
      (req : Request) (w : World R C K V G)
      → IsCoherent sv laws w
      → ¬ Holds (table_of sv laws w) req.code (Owns req.user_id)
      → (((delete_handler sv add_days req w).0 ≡ write_error link_not_found)
          ⊎ ((delete_handler sv add_days req w).0.status ≡ 500))
        × (table_of sv laws (delete_handler sv add_days req w).1 ≡ table_of sv laws w)
  unfolding delete_handler
  stranger_delete req w h stranger =
      stranger_deletes req (delete sv req.user_id req.code w) w _ stranger
        (delete_lem sv laws req.user_id req.code w h)
