-- ===== src/Http/Errors.antt =====
-- errors.go: the one table from errors to responses.
use youpass_share_service.Base.{
  Bytes, List, Option, [], arith, codes, if◌then◌else◌, none, refl, some, ℕ, ◌++◌, ◌∷◌, ◌≡◌,
}
use youpass_share_service.Domain.Error.{
  Error, err_is, forbidden, invalid_resource_type, invalid_status, link_gone, link_not_found,
  submission_not_found,
}
use youpass_share_service.Http.{Response, failure}

pub record Mapping : Type 0 where
  pub error : Error
  pub status : ℕ
  pub code : Bytes
  pub message : Bytes

-- The message is UTF-8: "Bài làm này đã được tắt chia sẻ hoặc đã bị xoá".
abbrev unavailable_message : Bytes
unavailable_message =
    0x42 ∷ 0xC3 ∷ 0xA0 ∷ codes "i l"
    ++ 0xC3 ∷ 0xA0 ∷ codes "m n"
    ++ 0xC3
      ∷ 0xA0
      ∷ 0x79
      ∷ 0x20
      ∷ 0xC4
      ∷ 0x91
      ∷ 0xC3
      ∷ 0xA3
      ∷ 0x20
      ∷ 0xC4
      ∷ 0x91
      ∷ 0xC6
      ∷ 0xB0
      ∷ 0xE1
      ∷ 0xBB
      ∷ 0xA3
      ∷ codes "c t"
    ++ 0xE1 ∷ 0xBA ∷ 0xAF ∷ codes "t chia s"
    ++ 0xE1 ∷ 0xBA ∷ 0xBB ∷ codes " ho"
    ++ 0xE1
      ∷ 0xBA
      ∷ 0xB7
      ∷ 0x63
      ∷ 0x20
      ∷ 0xC4
      ∷ 0x91
      ∷ 0xC3
      ∷ 0xA3
      ∷ 0x20
      ∷ 0x62
      ∷ 0xE1
      ∷ 0xBB
      ∷ 0x8B
      ∷ codes " xo"
    ++ 0xC3 ∷ 0xA1 ∷ []

abbrev row : Error → ℕ → Bytes → Bytes → Mapping
row e st c msg = record { error = e; status = st; code = c; message = msg }

abbrev pub error_mappings : List Mapping
error_mappings =
    row link_not_found 404 (codes "SHARE_NOT_FOUND") []
    ∷ row submission_not_found 404 (codes "SUBMISSION_NOT_FOUND") []
    ∷ row link_gone 410 (codes "SHARE_UNAVAILABLE") unavailable_message
    ∷ row forbidden 403 (codes "FORBIDDEN") []
    ∷ row invalid_resource_type 400 (codes "INVALID_RESOURCE_TYPE") []
    ∷ row invalid_status 400 (codes "INVALID_STATUS") []
    ∷ []

-- The loop of `statusOf`.
unfoldable pub status_in : List Mapping → Error → ℕ
status_in [] e = 500
status_in (m ∷ ms) e = let rest = status_in ms e in if err_is e m.error then m.status else rest

-- `none` is the nil error.
unfoldable pub status_of : Option Error → ℕ
unfolding status_in
status_of none = 200
status_of (some e) = status_in error_mappings e

-- The loop of `writeError`.
unfoldable pub written : List Mapping → Error → Response
written [] e = record { status = 500; body = failure (codes "INTERNAL_ERROR") [] }
written (m ∷ ms) e =
    let rest = written ms e in
    if err_is e m.error then record { status = m.status; body = failure m.code m.message } else rest

unfoldable pub write_error : Error → Response
unfolding written
write_error e = written error_mappings e

written-status_in : (ms : List Mapping) (e : Error) → (written ms e).status ≡ status_in ms e
unfolding written status_in
written-status_in [] e = refl
written-status_in (m ∷ ms) e = ground (arith, written-status_in ms e)

-- The status that `writeError` answers is the one that `statusOf` reports to the metrics, for
-- every error.
pub write_error-status_of : (e : Error) → (write_error e).status ≡ status_of (some e)
unfolding write_error status_of
write_error-status_of e = written-status_in error_mappings e
