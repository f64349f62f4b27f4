-- ===== src/Token.antt =====
-- internal/adapter/token/jwt.go: access tokens over a JWT package, which is a parameter.
pub mod Laws
use youpass_share_service.Base.{
  Bytes, Int64, codes, if◌then◌else◌, inl, inr, is_positive, none, some, ◌+◌, ◌⊎◌,
}
use youpass_share_service.Base.Decimal.{format_int}
use youpass_share_service.Base.Parse.{parse_int}
use youpass_share_service.Domain.Error.{Error, token_expired, token_invalid}
use youpass_share_service.Domain.Link.{Time}

-- jwt.RegisteredClaims, as far as the program sets and reads it
pub record Claims : Type 0 where
  pub subject : Bytes
  pub issuer : Bytes
  pub issued_at : Time
  pub expires_at : Time

-- What jwt.ParseWithClaims gives: the claims, ErrTokenExpired, or another error.
pub data Parsed : Type 0 where
  valid : Claims → Parsed
  expired : Parsed
  rejected : Parsed

-- The JWT package with HS256: `sign` takes the secret, and `parse` the secret, the issuer that the
-- token must have, the time and the token. `numeric_date` cuts a time to the package's precision.
pub record Jwt : Type 0 where
  pub numeric_date : Time → Time
  pub sign : Bytes → Claims → Error ⊎ Bytes
  pub parse : Bytes → Bytes → Time → Bytes → Parsed

abbrev pub token_issuer : Bytes
token_issuer = codes "youpass"

pub record Manager : Type 0 where
  pub secret : Bytes
  pub ttl : Time

unfoldable pub claims_for : Jwt → Manager → Time → Int64 → Claims
claims_for jwt m now user_id = record {
  subject = format_int user_id;
  issuer = token_issuer;
  issued_at = jwt.numeric_date now;
  expires_at = jwt.numeric_date (now + m.ttl);
}

-- `Issue`, with the time of the call
unfoldable pub issue : Jwt → Manager → Time → Int64 → Error ⊎ (Bytes × Time)
unfolding claims_for
issue jwt m now user_id = elim (jwt.sign m.secret (claims_for jwt m now user_id)) [
  | inl e ↦ inl e
  | inr signed ↦ inr (signed, now + m.ttl)
]

-- The end of `Verify`, on the subject
abbrev pub user_of : Bytes → Error ⊎ Int64
user_of subject = elim (parse_int subject) [
  | none ↦ inl token_invalid
  | some id ↦ if is_positive id then inr id else inl token_invalid
]

-- `Verify`, with the time of the call
unfoldable pub verify : Jwt → Manager → Time → Bytes → Error ⊎ Int64
unfolding parse_int
verify jwt m now raw = elim (jwt.parse m.secret token_issuer now raw) [
  | expired ↦ inl token_expired
  | rejected ↦ inl token_invalid
  | valid claims ↦ user_of claims.subject
]
