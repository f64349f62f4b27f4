-- ===== src/Http/Access.antt =====
-- middleware/auth.go with jwt.go: for whom a protected handler runs.
use youpass_share_service.Base.{
  Bool-cases, Bytes, Int64, [], arith, false, inl, inr, is_positive, refl, true, ◌==◌, ◌≡◌, ◌⊎◌,
  nat_eq, bytes_eq_instance,
}
use youpass_share_service.Domain.Error.{Error}
use youpass_share_service.Domain.Link.{Time}
use youpass_share_service.Domain.Viewer.{Unicode}
use youpass_share_service.Token.{Jwt, Manager, verify}
use youpass_share_service.Token.Laws.{verify_user}
use youpass_share_service.Http.{Request}
use youpass_share_service.Http.Auth.{Handler, bearer, require_auth}

module _ {S : Type 0} (u : Unicode) (v : Bytes → Error ⊎ Int64) where
  -- A request without a token, or with one that is refused.
  abbrev pub IsTurnedAway : Handler S → Request → S → Type 0
  IsTurnedAway next req s =
      ((require_auth u v next req s).0.status ≡ 401) × ((require_auth u v next req s).1 ≡ s)

  -- The request goes on, as the user that the verifier names.
  abbrev pub IsLetIn : Handler S → Request → S → Type 0
  IsLetIn next req s =
      (id : Int64) × (v (bearer u req) ≡ inr id)
      × (require_auth u v next req s ≡ next (record req { user_id = id }) s)

  require_auth_cases :
      (next : Handler S) (req : Request) (s : S) (r : Error ⊎ Int64)
      → v (bearer u req) ≡ r
      → IsLetIn next req s ⊎ IsTurnedAway next req s
  unfolding require_auth
  require_auth_cases next req s (inl x) e = inr (refused (Bool-cases (bearer u req == [])))
    where
      refused :
          ((bearer u req == []) ≡ true) ⊎ ((bearer u req == []) ≡ false) → IsTurnedAway next req s
      refused (inl none') = (ground (arith, none'), ground (arith, none'))
      refused (inr some') = (ground (arith, some', e), ground (arith, some', e))
  require_auth_cases next req s (inr id) e = elim (Bool-cases (bearer u req == [])) [
    | inl none' ↦ inr (ground (arith, none'), ground (arith, none'))
    | inr some' ↦ inl (id, e, ground (arith, some', e))
  ]

-- Behind `RequireAuth` with the tokens of jwt.go, a request either goes on to the handler as a
-- user whose ID is positive and is what `Verify` gives for its bearer token, or it is answered 401
-- and the state is untouched.
pub require_auth-verify :
    {S : Type 0} (u : Unicode) (jwt : Jwt) (m : Manager) (now : Time) (next : Handler S)
    (req : Request) (s : S)
    → ((id : Int64) × (is_positive id ≡ true)
        × (verify jwt m now (bearer u req) ≡ inr id)
        × (require_auth u (verify jwt m now) next req s ≡ next (record req { user_id = id }) s))
      ⊎ IsTurnedAway u (verify jwt m now) next req s
require_auth-verify u jwt m now next req s =
    elim (require_auth_cases u (verify jwt m now) next req s _ refl) [
      | inl (id, v, e) ↦ inl (id, verify_user jwt m now (bearer u req) id v, v, e)
      | inr away ↦ inr away
    ]
