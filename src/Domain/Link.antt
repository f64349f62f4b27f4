-- ===== src/Domain/Link.antt =====
-- link.go and submission.go: the share link, its states, and who may see it or is counted.
pub mod Access
use youpass_share_service.Base.{
  Bool, Bytes, Int64, Option, codes, eqb, false, if◌then◌else◌, is_positive, ltb, none, not, some,
  true, ℕ, ◌&&◌, ◌==◌, ◌||◌, nat_eq, bytes_eq_instance,
}
use youpass_share_service.Domain.Error.{Error, link_gone}
use youpass_share_service.Domain.Viewer.{Unicode, Viewer, is_bot}

-- `type Status string` and `type ResourceType string`
abbrev pub Status : Type 0
Status = Bytes

abbrev pub ResourceType : Type 0
ResourceType = Bytes

abbrev pub status_active : Status
status_active = codes "active"

abbrev pub status_disabled : Status
status_disabled = codes "disabled"

abbrev pub resource_writing : ResourceType
resource_writing = codes "writing_submission"

abbrev pub resource_speaking : ResourceType
resource_speaking = codes "speaking_submission"

abbrev pub resource_test : ResourceType
resource_test = codes "test_result"

unfoldable pub status_valid : Status → Bool
status_valid s = s == status_active || s == status_disabled

unfoldable pub resource_valid : ResourceType → Bool
resource_valid t = t == resource_writing || (t == resource_speaking || t == resource_test)

-- An instant, in nanoseconds from a fixed origin.
abbrev pub Time : Type 0
Time = ℕ

-- t.After(u)
abbrev pub after : Time → Time → Bool
after t u = ltb u t

pub record Link : Type 0 where
  pub id : Int64
  pub code : Bytes
  pub owner_id : Int64
  pub resource_type : ResourceType
  pub resource_id : Int64
  pub status : Status
  pub expires_at : Option Time
  pub deleted_at : Option Time
  pub view_count : Int64
  pub created_at : Time

-- What the shared page shows. A float32 is its bit pattern: the program copies it and prints it.
pub record Snapshot : Type 0 where
  pub owner_name : Bytes
  pub title : Bytes
  pub content : Bytes
  pub band_score : ℕ
  pub feedback : Bytes

unfoldable pub new_link : Bytes → Int64 → ResourceType → Int64 → Option Time → Link
new_link code owner_id rt resource_id expires_at = record {
  id = 0;
  code = code;
  owner_id = owner_id;
  resource_type = rt;
  resource_id = resource_id;
  status = status_active;
  expires_at = expires_at;
  deleted_at = none;
  view_count = 0;
  created_at = 0;
}

-- x != nil
abbrev pub is_set {ℓ} : {A : Type ℓ} → Option A → Bool
is_set none = false
is_set (some a) = true

-- l.ExpiresAt != nil && now.After(*l.ExpiresAt)
abbrev pub is_expired : Time → Option Time → Bool
is_expired now none = false
is_expired now (some t) = after now t

-- `none` is the nil error.
unfoldable pub accessible : Link → Time → Option Error
accessible l now =
    if is_set l.deleted_at || not (l.status == status_active)
    then some link_gone
    else if is_expired now l.expires_at
    then some link_gone
    else none

unfoldable pub is_owned_by : Link → Int64 → Bool
is_owned_by l user_id = is_positive user_id && eqb l.owner_id user_id

unfoldable pub counts_view_from : Unicode → Link → Viewer → Bool
counts_view_from u l v = not (is_owned_by l v.user_id) && not (is_bot u v)
