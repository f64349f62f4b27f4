-- ===== src/Domain/Error.antt =====
-- The errors of domain/errors.go, with those of the other packages that callers tell apart.
use youpass_share_service.Base.{Bool, arith, eqb, eqb_iff, true, ℕ, ◌+◌, ◌≡◌}

-- `foreign n` stands for an error of a library, by its identity.
pub data Error : Type 0 where
  link_not_found : Error
  link_gone : Error
  forbidden : Error
  invalid_resource_type : Error
  invalid_status : Error
  submission_not_found : Error
  cache_miss : Error
  duplicate_code : Error
  already_shared : Error
  code_exhausted : Error
  unavailable : Error
  token_invalid : Error
  token_expired : Error
  foreign : ℕ → Error

-- A number for each error value.
identity : Error → ℕ
identity link_not_found = 0
identity link_gone = 1
identity forbidden = 2
identity invalid_resource_type = 3
identity invalid_status = 4
identity submission_not_found = 5
identity cache_miss = 6
identity duplicate_code = 7
identity already_shared = 8
identity code_exhausted = 9
identity unavailable = 10
identity token_invalid = 11
identity token_expired = 12
identity (foreign n) = 13 + n

-- errors.Is on errors that wrap nothing: the identity of the values.
unfoldable pub err_is : Error → Error → Bool
unfolding identity
err_is a b = eqb (identity a) (identity b)

pub err_is_refl : (a : Error) → err_is a a ≡ true
unfolding err_is
err_is_refl a = ground arith

identity_injective : (a b : Error) → identity a ≡ identity b → a ≡ b
unfolding identity
identity_injective a b h = ground arith

pub eq_of_err_is : (a b : Error) → err_is a b ≡ true → a ≡ b
unfolding err_is
eq_of_err_is a b h = identity_injective a b ((eqb_iff _ _).0 h)
