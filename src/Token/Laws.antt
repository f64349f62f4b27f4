-- ===== src/Token/Laws.antt =====
-- jwt.go: what Issue signs, Verify accepts until it expires.
use youpass_share_service.Base.{
  Bool-cases, Bytes, Int64, arith, if◌then◌else◌, inl, inr, is_positive, ltb, true, ◌+◌, ◌≡◌,
}
use youpass_share_service.Base.Decimal.{format_int}
use youpass_share_service.Base.Parse.{parse_int-format_int}
use youpass_share_service.Domain.Error.{token_expired}
use youpass_share_service.Domain.Link.{Time}
use youpass_share_service.Token.{
  Claims, Jwt, Manager, claims_for, expired, issue, user_of, valid, verify,
}

-- The package accepts what it has signed with one secret, for the issuer that it asks for, until
-- the expiry; from then on it reports that the token has expired.
pub record JwtLaws (jwt : Jwt) : Type 0 where
  pub parse_signed :
      (secret : Bytes) (c : Claims) (raw : Bytes) (now : Time)
      → jwt.sign secret c ≡ inr raw
      → jwt.parse secret c.issuer now raw ≡ (if ltb now c.expires_at then valid c else expired)

issue_signs :
    (jwt : Jwt) (m : Manager) (t : Time) (id : Int64) (raw : Bytes) (exp : Time)
    → issue jwt m t id ≡ inr (raw, exp)
    → (jwt.sign m.secret (claims_for jwt m t id) ≡ inr raw) × (t + m.ttl ≡ exp)
unfolding issue
issue_signs jwt m t id raw exp h = ground arith

named_user : (id : Int64) → is_positive id ≡ true → user_of (format_int id) ≡ inr id
named_user id pos = ground (arith, pos, parse_int-format_int id (ground (arith, pos)))

-- On a JWT package that accepts what it has signed until the expiry: if `Issue` has returned a
-- token for a positive int64 ID, `Verify` gives that ID before the expiry, cut to the package's
-- precision, and `ErrExpired` from then on.
pub verify-issue :
    (jwt : Jwt) (laws : JwtLaws jwt) (m : Manager) (t now : Time) (id : Int64) (raw : Bytes)
    (exp : Time)
    → is_positive id ≡ true
    → issue jwt m t id ≡ inr (raw, exp)
    → verify jwt m now raw ≡ (if ltb now (jwt.numeric_date exp) then inr id else inl token_expired)
unfolding verify claims_for
verify-issue jwt laws m t now id raw exp pos done =
    let (signed, at) = issue_signs jwt m t id raw exp done in
    let parsed = laws.parse_signed m.secret (claims_for jwt m t id) raw now signed in
    elim (Bool-cases (ltb now (jwt.numeric_date (t + m.ttl)))) [
      | inl live ↦ ground (arith, parsed, at, live, named_user id pos)
      | inr late ↦ ground (arith, parsed, at, late)
    ]

-- A user that Verify returns is positive.
pub verify_user :
    (jwt : Jwt) (m : Manager) (now : Time) (raw : Bytes) (id : Int64)
    → verify jwt m now raw ≡ inr id
    → is_positive id ≡ true
unfolding verify
verify_user jwt m now raw id h = ground (arith, h)
