-- ===== src/Domain/Viewer.antt =====
-- viewer.go: who opens a link, the key under which a view is deduplicated, and crawlers.
pub mod Bots
pub mod Keys
use youpass_share_service.Base.{
  Bool, Bytes, Int64, List, [], codes, eqb, false, if◌then◌else◌, is_positive, leb, ltb, map, take,
  true, ℕ, ◌%◌, ◌&&◌, ◌+◌, ◌/◌, ◌==◌, ◌||◌, ◌∷◌, nat_eq, bytes_eq_instance,
}
use youpass_share_service.Base.Decimal.{format_int}
use mathlib.Core.List.{reverse}

pub record Viewer : Type 0 where
  pub user_id : Int64
  pub visitor_id : Bytes
  pub user_agent : Bytes

-- The tables of package unicode, which strings.ToLower and strings.TrimSpace consult only for a
-- text with a byte from 0x80 on.
pub record Unicode : Type 0 where
  pub map_lower : Bytes → Bytes
  pub trim : Bytes → Bytes

unfoldable pub is_ascii : Bytes → Bool
is_ascii [] = true
is_ascii (c ∷ s) = ltb c 128 && is_ascii s

abbrev pub lower_byte : ℕ → ℕ
lower_byte c = if leb b'A' c && leb c b'Z' then c + 32 else c

abbrev pub is_space : ℕ → Bool
is_space c = eqb c 32 || (leb 9 c && leb c 13)

unfoldable pub trim_left : Bytes → Bytes
trim_left [] = []
trim_left (c ∷ s) = if is_space c then trim_left s else c ∷ s

-- strings.ToLower
unfoldable pub to_lower : Unicode → Bytes → Bytes
to_lower u s = if is_ascii s then map lower_byte s else u.map_lower s

-- strings.TrimSpace
unfoldable pub trim_space : Unicode → Bytes → Bytes
trim_space u s = if is_ascii s then reverse (trim_left (reverse (trim_left s))) else u.trim s

-- strings.HasPrefix
unfoldable pub has_prefix : Bytes → Bytes → Bool
has_prefix s [] = true
has_prefix [] (p ∷ ps) = false
has_prefix (c ∷ s) (p ∷ ps) = eqb c p && has_prefix s ps

-- strings.Contains
unfoldable pub contains : Bytes → Bytes → Bool
unfolding has_prefix
contains [] sub = has_prefix [] sub
contains (c ∷ s) sub = has_prefix (c ∷ s) sub || contains s sub

abbrev hex_digit : ℕ → ℕ
hex_digit n = if ltb n 10 then 48 + n else 87 + n

-- hex.EncodeToString
unfoldable pub hex : Bytes → Bytes
hex [] = []
hex (b ∷ s) = hex_digit (b / 16) ∷ hex_digit (b % 16) ∷ hex s

-- `sha256` is the digest of crypto/sha256.
unfoldable pub key : (Bytes → Bytes) → Viewer → Bytes
unfolding hex
key sha256 v =
    if is_positive v.user_id
    then b'u' ∷ format_int v.user_id
    else b'a' ∷ hex (take 8 (sha256 v.visitor_id))

abbrev pub bot_signatures : List Bytes
bot_signatures =
    codes "bot"
    ∷ codes "crawler"
    ∷ codes "spider"
    ∷ codes "preview"
    ∷ codes "facebookexternalhit"
    ∷ codes "zalo"
    ∷ codes "slackbot"
    ∷ codes "telegrambot"
    ∷ codes "whatsapp"
    ∷ codes "discordbot"
    ∷ codes "curl/"
    ∷ codes "wget/"
    ∷ []

-- The loop over the signatures.
unfoldable pub has_signature : Bytes → List Bytes → Bool
has_signature ua [] = false
has_signature ua (sig ∷ sigs) = contains ua sig || has_signature ua sigs

unfoldable pub is_bot : Unicode → Viewer → Bool
unfolding trim_space to_lower trim_left has_signature is_ascii contains
is_bot u v =
    let ua = to_lower u (trim_space u v.user_agent) in
    if ua == [] then true else has_signature ua bot_signatures
