-- ===== src/Memory/Content.antt =====
-- memstore.go: ContentReader.
use youpass_share_service.Base.{
  Bool, Dict, Int64, Option, [], codes, eqb, false, if◌then◌else◌, insert, lookup, none, not, some,
  true, ◌&&◌, ◌++◌, ◌||◌, ◌∷◌, nat_eq, bytes_eq_instance,
}
use youpass_share_service.Base.Decimal.{format_int}
use youpass_share_service.Domain.Error.{submission_not_found}
use youpass_share_service.Domain.Link.{ResourceType, Snapshot, is_set}
use youpass_share_service.Outcome.{Act, ret, throw}
use youpass_share_service.Share.Ports.{ContentReader}

pub record Content : Type 0 where
  pub owners : Dict Int64 Int64
  pub deleted : Dict Int64 Bool

unfoldable pub new_content : Content
new_content = record { owners = (101, 1) ∷ (102, 1) ∷ (201, 2) ∷ []; deleted = [] }

-- m[k], with the zero of a missing key
abbrev pub or_zero : Option Int64 → Int64
or_zero none = 0
or_zero (some n) = n

abbrev pub or_false : Option Bool → Bool
or_false none = false
or_false (some b) = b

unfoldable pub is_owner : ResourceType → Int64 → Int64 → Act Content Bool
is_owner rt id user_id c =
    ret (eqb (or_zero (lookup id c.owners)) user_id && not (or_false (lookup id c.deleted))) c

-- "Submission #%d"
abbrev pub sample : Int64 → Snapshot
sample id = record {
  owner_name = codes "Minh Anh";
  title = codes "Submission #" ++ format_int id;
  content = codes "essay";
  band_score = 0x40F00000;
  feedback = [];
}

unfoldable pub snapshot : ResourceType → Int64 → Act Content Snapshot
snapshot rt id c =
    if not (is_set (lookup id c.owners)) || or_false (lookup id c.deleted)
    then throw submission_not_found c
    else ret (sample id) c

unfoldable pub mark_deleted : Int64 → Content → Content
mark_deleted id c = record c { deleted = insert id true c.deleted }

abbrev pub memory_content : ContentReader Content
memory_content = record { is_owner = is_owner; snapshot = snapshot }
