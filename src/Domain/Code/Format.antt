-- ===== src/Domain/Code/Format.antt =====
-- code.go: the format check accepts exactly the texts over the alphabet, drawn codes among them.
use youpass_share_service.Base.{
  All, Bool-cases, Bytes, List, [], arith, each_below, each_below_sound, eqb, eqb_iff, false≢true,
  get_or, if◌then◌else◌, inl, inr, keep, leb, length, length-append, ltb, ltb→lt, not, refl, suc,
  sym, true, zero, ℕ, ◌%◌, ◌++◌, ◌-◌, ◌<◌, ◌||◌, ◌↔◌, ◌∙◌, ◌∷◌, ◌≡◌, ◌≤◌,
}
use youpass_share_service.Domain.Code.{
  Read, all_alnum, code_alphabet, code_length, draw, drawn, failed, fill, got, is_alnum,
  max_unbiased_byte, new_code, symbol, valid_code,
}

symbol_table : each_below 62 (λ i. is_alnum (get_or code_alphabet i 0)) ≡ true
unfolding each_below
symbol_table = refl

symbol_alnum : (b : ℕ) → is_alnum (symbol b) ≡ true
unfolding symbol
symbol_alnum b =
    each_below_sound 62 (λ i. is_alnum (get_or code_alphabet i 0)) (b % 62) symbol_table
      (omega arith)

all_alnum-append :
    (xs : Bytes) (c : ℕ) → all_alnum xs ≡ true → is_alnum c ≡ true → all_alnum (xs ++ c ∷ []) ≡ true
unfolding all_alnum
all_alnum-append [] c h k = rw k
all_alnum-append (x ∷ xs) c h k = elim (Bool-cases (is_alnum x)) [
  | inl p ↦ rw p (all_alnum-append xs c (rw (p, all_alnum) at h) k)
  | inr p ↦ cc (rw (p, all_alnum) at h)
]

abbrev IsPartial : Bytes → Type 0
IsPartial out = (all_alnum out ≡ true) × (length out ≤ code_length)

fill-IsPartial :
    (buf out : Bytes) → length out < code_length → IsPartial out → IsPartial (fill buf out)
unfolding fill
fill-IsPartial [] out h p = p
fill-IsPartial (b ∷ buf) out h p =
    let grown = all_alnum-append out (symbol b) p.0 (symbol_alnum b) in
    let size = length-append out (symbol b ∷ []) in
    ground (arith, grown, size, fill-IsPartial buf out, fill-IsPartial buf (out ++ symbol b ∷ []))

draw-IsPartial :
    (reads : List Read) (out : Bytes) {c : Bytes} {rest : List Read}
    → IsPartial out
    → draw reads out ≡ drawn c rest
    → (all_alnum c ≡ true) × (length c ≡ code_length)
unfolding draw
draw-IsPartial [] out p e = ground arith
draw-IsPartial (failed x ∷ reads) out p e = ground arith
draw-IsPartial (got buf ∷ reads) out {c} {rest} p e =
    elim (Bool-cases (ltb (length out) code_length)) [
      | inl more ↦
          draw-IsPartial reads (fill buf out) {c = c} {rest = rest}
            (fill-IsPartial buf out (ltb→lt _ _ more) p) (ground arith)
      | inr full ↦ ground arith
    ]

-- Whatever the reads hold, a code that `NewCode` returns passes `ValidCode`.
pub new_code-valid_code :
    (reads : List Read) {c : Bytes} {rest : List Read}
    → new_code reads ≡ drawn c rest
    → valid_code c ≡ true
unfolding new_code valid_code
new_code-valid_code reads {c} e =
    let (ok, size) = draw-IsPartial reads [] (refl, omega arith) e in ground (arith, ok, size)

-- c is a symbol of the alphabet.
abbrev pub IsSymbol : ℕ → Type 0
IsSymbol c = (i : ℕ) × (i < 62) × (get_or code_alphabet i 0 ≡ c)

-- The place in the alphabet.
place : ℕ → ℕ
place c = if leb c b'9' then c - b'0' else if leb c b'Z' then c - 55 else c - 61

place_table :
    each_below 123 (λ c. not (is_alnum c) || eqb (get_or code_alphabet (place c) 0) c) ≡ true
unfolding each_below place
place_table = refl

place_bound : (c : ℕ) → is_alnum c ≡ true → (c < 123) × (place c < 62)
unfolding place
place_bound c h = ground arith

IsSymbol-of_alnum : (c : ℕ) → is_alnum c ≡ true → IsSymbol c
IsSymbol-of_alnum c h =
    let (small, at) = place_bound c h in
    let row =
      each_below_sound 123 (λ c. not (is_alnum c) || eqb (get_or code_alphabet (place c) 0) c) c
        place_table small in
    (place c, at, (eqb_iff _ _).0 (rw h at row))

is_alnum-of_IsSymbol : (c : ℕ) → IsSymbol c → is_alnum c ≡ true
is_alnum-of_IsSymbol c (i, h, e) =
    rw (← e) (each_below_sound 62 (λ i. is_alnum (get_or code_alphabet i 0)) i symbol_table h)

all_alnum_iff : (s : Bytes) → (all_alnum s ≡ true) ↔ All IsSymbol s
unfolding all_alnum
all_alnum_iff [] = (λ _. tt, λ _. refl)
all_alnum_iff (c ∷ s) = elim (Bool-cases (is_alnum c)) [
  | inl p ↦ (
    λ h. (IsSymbol-of_alnum c p, (all_alnum_iff s).0 (rw (p, all_alnum) at h)),
    λ h. rw p ((all_alnum_iff s).1 h.1),
  )
  | inr p ↦ (
    λ h. absurd (false≢true (rw (p, all_alnum) at h)),
    λ h. absurd (false≢true (sym p ∙ is_alnum-of_IsSymbol c h.0)),
  )
]

-- `ValidCode` accepts exactly the texts of eight symbols of the alphabet that `NewCode` draws
-- from.
pub valid_code_iff :
    (s : Bytes) → (valid_code s ≡ true) ↔ ((length s ≡ code_length) × All IsSymbol s)
unfolding valid_code
valid_code_iff s = ground (arith, all_alnum_iff s)

-- How many of the accepted bytes give the symbol.
abbrev below : ℕ → Bytes
below zero = []
below (suc n) = n ∷ below n

pub sources : ℕ → ℕ
unfolding symbol
sources c = length (keep (λ b. eqb (symbol b) c) (below max_unbiased_byte))

sources_table : each_below 62 (λ i. eqb (sources (get_or code_alphabet i 0)) 4) ≡ true
unfolding each_below sources symbol
sources_table = refl

-- Each symbol of the alphabet comes from exactly four of the 248 accepted byte values.
pub symbol_uniform : (c : ℕ) → IsSymbol c → sources c ≡ 4
symbol_uniform c (i, h, e) = rw (← e) (
    (eqb_iff _ _).0
      (each_below_sound 62 (λ i. eqb (sources (get_or code_alphabet i 0)) 4) i sources_table h))
