-- ===== src/Http/Auth.antt =====
-- middleware/auth.go and ratelimit.go: who a request is from, and how often it may come.
use youpass_share_service.Base.{
  Bool, Bytes, Int64, Option, [], codes, if◌then◌else◌, inl, inr, length, ltb, map, none, not, some,
  suc, take, zero, ℕ, ◌&&◌, ◌++◌, ◌==◌, ◌∷◌, ◌⊎◌, nat_eq, bytes_eq_instance,
}
use youpass_share_service.Domain.Error.{Error, err_is, token_expired}
use youpass_share_service.Domain.Viewer.{Unicode, lower_byte, trim_space}
use youpass_share_service.Outcome.{}
use youpass_share_service.Http.{Request, Response, failure}

-- strings.EqualFold(s, "Bearer "): no character beyond ASCII folds to one of these.
abbrev is_bearer : Bytes → Bool
is_bearer s = map lower_byte s == codes "bearer "

abbrev skip : ℕ → Bytes → Bytes
skip zero s = s
skip (suc n) [] = []
skip (suc n) (c ∷ s) = skip n s

unfoldable pub bearer : Unicode → Request → Bytes
bearer u req =
    if ltb 7 (length req.authorization) && is_bearer (take 7 req.authorization)
    then trim_space u (skip 7 req.authorization)
    else []

abbrev pub unauthorized : Bytes → Response
unauthorized code = record { status = 401; body = failure code [] }

-- A handler answers, and changes the state behind it.
abbrev pub Handler : Type 0 → Type 0
Handler S = Request → S → Response × S

-- `v` is the verifier's Verify, and `next` the rest of the chain.
module _ {S : Type 0} (u : Unicode) (v : Bytes → Error ⊎ Int64) where
  unfoldable pub require_auth : Handler S → Handler S
  unfolding bearer
  require_auth next req s =
      let raw = bearer u req in
      if raw == [] then (unauthorized (codes "TOKEN_MISSING"), s) else (elim (v raw) [
        | inl e ↦ (
          unauthorized
              (if err_is e token_expired then codes "TOKEN_EXPIRED" else codes "TOKEN_INVALID"),
          s,
        )
        | inr id ↦ next (record req { user_id = id }) s
      ])

  unfoldable pub optional_auth : Handler S → Handler S
  unfolding bearer
  optional_auth next req s =
      let raw = bearer u req in
      let known : Request = elim (v raw) [ inl e ↦ req | inr id ↦ record req { user_id = id } ] in
      if raw == [] then next req s else next known s

  -- What the limiter's answer leads to: an error lets the request pass.
  abbrev pub judged : Handler S → Request → (Bool × Option Error) × S → Response × S
  judged next req ((allowed, some e), s) = next req s
  judged next req ((allowed, none), s) =
      if not allowed
      then (record { status = 429; body = failure (codes "RATE_LIMITED") [] }, s)
      else next req s

  unfoldable pub rate_limit :
      (Bytes → S → (Bool × Option Error) × S) → Bytes → Handler S → Handler S
  rate_limit allow scope next req s = judged next req (allow (scope ++ (b':' ∷ req.client_ip)) s)
