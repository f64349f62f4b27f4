-- ===== src/Domain/Code.antt =====
-- code.go: share codes, drawn by rejection sampling from crypto/rand, and their format check.
pub mod Sampling
pub mod Format
use youpass_share_service.Base.{
  Bool, Bytes, List, [], codes, eqb, false, get_or, if◌then◌else◌, leb, length, ltb, true, ℕ, ◌%◌,
  ◌&&◌, ◌++◌, ◌||◌, ◌∷◌,
}
use youpass_share_service.Domain.Error.{Error}

abbrev pub code_alphabet : Bytes
code_alphabet = codes "0123456789ABCDEFGHIJKLMNOPQRSTUVWXYZabcdefghijklmnopqrstuvwxyz"

abbrev pub code_length : ℕ
code_length = 8

abbrev pub max_unbiased_byte : ℕ
max_unbiased_byte = 248

-- codeAlphabet[b%62]
pub symbol : ℕ → ℕ
symbol b = get_or code_alphabet (b % 62) 0

-- `for _, b := range buf`: the bytes of one read are added to `out` until it is full.
pub fill : Bytes → Bytes → Bytes
fill [] out = out
fill (b ∷ buf) out =
    let skip = fill buf out in
    let out' = out ++ symbol b ∷ [] in
    let more = fill buf out' in
    if leb max_unbiased_byte b then skip else if eqb (length out') code_length then out' else more

-- What a call of rand.Read gives: a full buffer, or an error.
pub data Read : Type 0 where
  got : Bytes → Read
  failed : Error → Read

-- The result of the loop, with the reads that are left; `starved` if it still waits for a read.
pub data Draw : Type 0 where
  drawn : Bytes → List Read → Draw
  broken : Error → List Read → Draw
  starved : Draw

-- `for len(out) < CodeLength`, over the reads that crypto/rand delivers.
pub draw : List Read → Bytes → Draw
draw [] out = if ltb (length out) code_length then starved else drawn out []
draw (r ∷ reads) out =
    let next : Draw = elim r [ got buf ↦ draw reads (fill buf out) | failed e ↦ broken e reads ] in
    if ltb (length out) code_length then next else drawn out (r ∷ reads)

unfoldable pub new_code : List Read → Draw
unfolding draw fill symbol
new_code reads = draw reads []

abbrev pub is_alnum : ℕ → Bool
is_alnum c =
    (leb b'0' c && leb c b'9') || ((leb b'A' c && leb c b'Z') || (leb b'a' c && leb c b'z'))

-- The loop over the bytes of the text.
pub all_alnum : Bytes → Bool
all_alnum [] = true
all_alnum (c ∷ s) = if is_alnum c then all_alnum s else false

unfoldable pub valid_code : Bytes → Bool
unfolding all_alnum
valid_code s = if eqb (length s) code_length then all_alnum s else false
