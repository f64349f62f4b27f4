-- ===== src/Base/Decimal.antt =====
-- strconv.FormatInt in base 10, over int64 patterns.
use youpass_share_service.Base.Tests.{Bool-cases, if◌then◌else◌, ltb, tests}
use youpass_share_service.Base.Text.{Bytes, Int64}
use youpass_share_service.Base.Lists.{All, All-append, get_or}
use Prim.Native.Nat.{ℕ, zero, suc, ◌+◌, ◌-◌, ◌*◌, ◌/◌, ◌%◌, ◌^◌, ◌≤◌, ◌<◌}
use mathlib.Core.Path.{◌≡◌, refl, sym, ap, ◌∙◌, subst}
use mathlib.Core.Logic.{◌⊎◌, inl, inr}
use mathlib.Core.List.{[], ◌∷◌, ◌++◌, reverse, reverse-reverse, reverse-cons, tail}
use native.Mathlib.Omega.{arith}

-- The digits of n, the least first, with fuel for their number.
unfoldable pub digits : ℕ → ℕ → Bytes
digits zero n = []
digits (suc f) n =
    let rest = digits f (n / 10) in if ltb n 10 then (48 + n) ∷ [] else (48 + n % 10) ∷ rest

-- Twenty digits are enough for every number below 2 ^ 64.
unfoldable pub format_nat : ℕ → Bytes
unfolding digits
format_nat n = reverse (digits 20 n)

-- strconv.FormatInt(i, 10)
unfoldable pub format_int : Int64 → Bytes
unfolding format_nat
format_int i = if ltb i (2 ^ 63) then format_nat i else b'-' ∷ format_nat (2 ^ 64 - i)

abbrev pub IsDigit : ℕ → Type 0
IsDigit c = (48 ≤ c) × (c ≤ 57)

unfoldable pub value : Bytes → ℕ
value [] = 0
value (d ∷ ds) = (d - 48) + 10 * value ds

pub value-digits : (f n : ℕ) → n < 10 ^ f → value (digits f n) ≡ n
unfolding value digits
value-digits zero n h = omega arith
value-digits (suc f) n h = ground (arith, value-digits f (n / 10) (omega arith))

-- No byte of the digits is another than a digit.
pub digits-IsDigit : (f n : ℕ) → All IsDigit (digits f n)
unfolding digits
digits-IsDigit zero n = tt
digits-IsDigit (suc f) n = elim (Bool-cases (ltb n 10)) [
  | inl small ↦ rw small ((omega tests, omega tests), tt)
  | inr large ↦ rw large ((omega arith, omega arith), digits-IsDigit f (n / 10))
]

All-reverse : (xs : Bytes) → All IsDigit xs → All IsDigit (reverse xs)
All-reverse [] h = tt
All-reverse (x ∷ xs) h =
    rw (reverse-cons x xs) (All-append IsDigit (reverse xs) (x ∷ []) (All-reverse xs h.1) (h.0, tt))

pub format_nat-IsDigit : (n : ℕ) → All IsDigit (format_nat n)
unfolding format_nat
format_nat-IsDigit n = All-reverse (digits 20 n) (digits-IsDigit 20 n)

pub format_nat_injective :
    (m n : ℕ) → m < 10 ^ 20 → n < 10 ^ 20 → format_nat m ≡ format_nat n → m ≡ n
unfolding format_nat
format_nat_injective m n hm hn e =
    let back : digits 20 m ≡ digits 20 n =
      sym (reverse-reverse (digits 20 m)) ∙ ap reverse e ∙ reverse-reverse (digits 20 n) in
    sym (value-digits 20 m hm) ∙ ap value back ∙ value-digits 20 n hn

-- The text of a number is a sign or a digit, then digits.
abbrev pub IsSignOrDigit : ℕ → Type 0
IsSignOrDigit c = (c ≡ b'-') ⊎ IsDigit c

pub format_int-IsSignOrDigit : (i : Int64) → All IsSignOrDigit (format_int i)
unfolding format_int
format_int-IsSignOrDigit i = elim (Bool-cases (ltb i (2 ^ 63))) [
  | inl pos ↦ rw pos (wider (format_nat i) (format_nat-IsDigit i))
  | inr neg ↦ rw neg (inl refl, wider (format_nat (2 ^ 64 - i)) (format_nat-IsDigit (2 ^ 64 - i)))
]
  where
    wider : (s : Bytes) → All IsDigit s → All IsSignOrDigit s
    wider [] h = tt
    wider (c ∷ s) h = (inr h.0, wider s h.1)

-- The text of a number below 2 ^ 63 has no sign.
unsigned : (n : ℕ) (s : Bytes) → ¬ (format_nat n ≡ b'-' ∷ s)
unsigned n s e =
    let digit : IsDigit b'-' = (subst (All IsDigit) e (format_nat-IsDigit n)).0 in omega arith

-- Two int64 values with one text are one.
pub format_int_injective :
    (i j : Int64) → i < 2 ^ 64 → j < 2 ^ 64 → format_int i ≡ format_int j → i ≡ j
unfolding format_int
format_int_injective i j hi hj e = elim (Bool-cases (ltb i (2 ^ 63))) [
  | inl p ↦ elim (Bool-cases (ltb j (2 ^ 63))) [
    | inl q ↦
        format_nat_injective i j (omega (arith, tests)) (omega (arith, tests)) (rw (p, q) at e)
    | inr q ↦ absurd (unsigned i (format_nat (2 ^ 64 - j)) (rw (p, q) at e))
  ]
  | inr p ↦ elim (Bool-cases (ltb j (2 ^ 63))) [
    | inl q ↦ absurd (unsigned j (format_nat (2 ^ 64 - i)) (sym (rw (p, q) at e)))
    | inr q ↦
        let same : format_nat (2 ^ 64 - i) ≡ format_nat (2 ^ 64 - j) = ap tail (rw (p, q) at e) in
        let back : 2 ^ 64 - i ≡ 2 ^ 64 - j =
          format_nat_injective (2 ^ 64 - i) (2 ^ 64 - j) (omega arith) (omega arith) same in
        omega arith
  ]
]

-- A byte that no text of a number has.
abbrev pub IsBreak : ℕ → Type 0
IsBreak sep = (c : ℕ) → IsSignOrDigit c → ¬ (c ≡ sep)

-- It ends the text of a number.
split_at :
    (sep : ℕ) (a b x y : Bytes)
    → IsBreak sep
    → All IsSignOrDigit a
    → All IsSignOrDigit b
    → a ++ (sep ∷ x) ≡ b ++ (sep ∷ y)
    → (a ≡ b) × (x ≡ y)
split_at sep [] [] x y brk ha hb e = (refl, ap tail e)
split_at sep [] (c ∷ b) x y brk ha hb e =
    absurd (brk c hb.0 (ap (λ (l : Bytes). get_or l 0 0) (sym e)))
split_at sep (c ∷ a) [] x y brk ha hb e = absurd (brk c ha.0 (ap (λ (l : Bytes). get_or l 0 0) e))
split_at sep (c ∷ a) (d ∷ b) x y brk ha hb e =
    let (p, q) = split_at sep a b x y brk ha.1 hb.1 (ap tail e) in
    let first : c ≡ d = ap (λ (l : Bytes). get_or l 0 0) e in (cc, q)

pub numbered_injective :
    (sep : ℕ) (i j : Int64) (x y : Bytes)
    → IsBreak sep
    → i < 2 ^ 64
    → j < 2 ^ 64
    → format_int i ++ (sep ∷ x) ≡ format_int j ++ (sep ∷ y)
    → (i ≡ j) × (x ≡ y)
numbered_injective sep i j x y brk hi hj e =
    let (p, q) =
      split_at sep (format_int i) (format_int j) x y brk (format_int-IsSignOrDigit i)
        (format_int-IsSignOrDigit j) e in
    (format_int_injective i j hi hj p, q)

pub colon-IsBreak : IsBreak b':'
colon-IsBreak c (inl p) e = omega arith
colon-IsBreak c (inr p) e = omega arith

pub brace-IsBreak : IsBreak b'}'
brace-IsBreak c (inl p) e = omega arith
brace-IsBreak c (inr p) e = omega arith
