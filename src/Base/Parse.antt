-- ===== src/Base/Parse.antt =====
-- strconv.ParseInt in base 10, over int64 patterns.
use youpass_share_service.Base.Tests.{Bool-cases, eqb, if◌then◌else◌, leb, ltb, none≢some, tests}
use youpass_share_service.Base.Text.{Bytes, Int64}
use youpass_share_service.Base.Lists.{All, length}
use youpass_share_service.Base.Decimal.{
  IsDigit, digits, digits-IsDigit, format_int, format_nat, format_nat-IsDigit, value, value-digits,
}
use Prim.Native.Nat.{ℕ, suc, ◌+◌, ◌-◌, ◌*◌, ◌%◌, ◌^◌, ◌<◌}
use mathlib.Core.Path.{◌≡◌, refl, sym, ap, ◌∙◌}
use mathlib.Core.Logic.{inl, inr}
use mathlib.Core.Bool.{Bool, true, false, ◌&&◌}
use mathlib.Core.Option.{Option, none, some}
use mathlib.Core.List.{[], ◌∷◌, ◌++◌, reverse, reverse-cons, reverse-reverse}
use native.Mathlib.Omega.{arith}

abbrev pub is_digit : ℕ → Bool
is_digit c = leb b'0' c && leb c b'9'

-- The number that the digits continue.
unfoldable pub parse_digits : ℕ → Bytes → Option ℕ
parse_digits n [] = some n
parse_digits n (c ∷ s) =
    let rest = parse_digits (n * 10 + (c - 48)) s in if is_digit c then rest else none

-- A number needs a digit.
abbrev parse_nat : Bytes → Option ℕ
parse_nat [] = none
parse_nat (c ∷ s) = parse_digits 0 (c ∷ s)

abbrev positive : Option ℕ → Option Int64
positive none = none
positive (some n) = if ltb n (2 ^ 63) then some n else none

abbrev negative : Option ℕ → Option Int64
negative none = none
negative (some n) = if leb n (2 ^ 63) then some ((2 ^ 64 - n) % 2 ^ 64) else none

-- strconv.ParseInt(s, 10, 64), with `none` for an error of syntax or range
unfoldable pub parse_int : Bytes → Option Int64
unfolding parse_digits
parse_int [] = none
parse_int (c ∷ s) =
    if eqb c b'-'
    then negative (parse_nat s)
    else if eqb c b'+'
    then positive (parse_nat s)
    else positive (parse_nat (c ∷ s))

parse_digits-append :
    (n : ℕ) (s : Bytes) (c v : ℕ)
    → IsDigit c
    → parse_digits n s ≡ some v
    → parse_digits n (s ++ c ∷ []) ≡ some (v * 10 + (c - 48))
unfolding parse_digits
parse_digits-append n [] c v h e = ground arith
parse_digits-append n (d ∷ s) c v h e =
    ground (arith, parse_digits-append (n * 10 + (d - 48)) s c v h)

parse_digits-reverse : (ds : Bytes) → All IsDigit ds → parse_digits 0 (reverse ds) ≡ some (value ds)
unfolding value parse_digits
parse_digits-reverse [] h = refl
parse_digits-reverse (d ∷ ds) h = rw (reverse-cons d ds) (
    parse_digits-append 0 (reverse ds) d (value ds) h.0 (parse_digits-reverse ds h.1)
    ∙ ap some (omega arith))

digits-cons : (f n : ℕ) → ¬ (digits (suc f) n ≡ [])
unfolding digits
digits-cons f n e = elim (Bool-cases (ltb n 10)) [
  | inl p ↦ omega (arith, ap (λ (l : Bytes). length l) (rw (p, digits) at e))
  | inr p ↦ omega (arith, ap (λ (l : Bytes). length l) (rw (p, digits) at e))
]

format_nat≢nil : (n : ℕ) → ¬ (format_nat n ≡ [])
unfolding format_nat
format_nat≢nil n e =
    digits-cons 19 n (sym (reverse-reverse (digits 20 n)) ∙ ap (λ (l : Bytes). reverse l) e)

format_nat-cons : (n : ℕ) → (c : ℕ) × (s : Bytes) × (format_nat n ≡ c ∷ s) × IsDigit c
format_nat-cons n = start (format_nat n) refl (format_nat-IsDigit n)
  where
    start :
        (t : Bytes)
        → format_nat n ≡ t
        → All IsDigit t
        → (c : ℕ) × (s : Bytes) × (format_nat n ≡ c ∷ s) × IsDigit c
    start [] e h = absurd (format_nat≢nil n e)
    start (c ∷ s) e h = (c, s, e, h.0)

read : (n : ℕ) → n < 10 ^ 20 → parse_digits 0 (format_nat n) ≡ some n
unfolding format_nat
read n h = parse_digits-reverse (digits 20 n) (digits-IsDigit 20 n) ∙ ap some (value-digits 20 n h)

parse_nat-format_nat : (n : ℕ) → n < 10 ^ 20 → parse_nat (format_nat n) ≡ some n
parse_nat-format_nat n h =
    let (c, s, e, d) = format_nat-cons n in ap parse_nat e ∙ ap (parse_digits 0) (sym e) ∙ read n h

parse_plain : (c : ℕ) (s : Bytes) → IsDigit c → parse_int (c ∷ s) ≡ positive (parse_nat (c ∷ s))
unfolding parse_int
parse_plain c s d = ground arith

parse_minus : (s : Bytes) → parse_int (b'-' ∷ s) ≡ negative (parse_nat s)
unfolding parse_int
parse_minus s = refl

format_int_small : (i : Int64) → ltb i (2 ^ 63) ≡ true → format_int i ≡ format_nat i
unfolding format_int
format_int_small i p = ground arith

format_int_large :
    (i : Int64) → ltb i (2 ^ 63) ≡ false → format_int i ≡ b'-' ∷ format_nat (2 ^ 64 - i)
unfolding format_int
format_int_large i p = ground arith

-- What FormatInt writes ParseInt reads.
pub parse_int-format_int : (i : Int64) → i < 2 ^ 64 → parse_int (format_int i) ≡ some i
parse_int-format_int i h = elim (Bool-cases (ltb i (2 ^ 63))) [
  | inl p ↦
      let (c, s, e, d) = format_nat-cons i in
      ap parse_int (format_int_small i p ∙ e)
      ∙ parse_plain c s d
      ∙ ap (λ (t : Bytes). positive (parse_nat t)) (sym e)
      ∙ ap positive (parse_nat-format_nat i (omega (arith, tests)))
      ∙ ground (arith, p)
  | inr p ↦
      ap parse_int (format_int_large i p)
      ∙ parse_minus (format_nat (2 ^ 64 - i))
      ∙ ap negative (parse_nat-format_nat (2 ^ 64 - i) (omega arith))
      ∙ ground (arith, p)
]

bounded : (n : Option ℕ) (i : Int64) → positive n ≡ some i → i < 2 ^ 64
bounded none i e = ground arith
bounded (some n) i e = ground arith

bounded_below : (n : Option ℕ) (i : Int64) → negative n ≡ some i → i < 2 ^ 64
bounded_below none i e = ground arith
bounded_below (some n) i e = ground arith

-- What ParseInt reads is an int64 value.
pub parse_int_bound : (s : Bytes) (i : Int64) → parse_int s ≡ some i → i < 2 ^ 64
unfolding parse_int
parse_int_bound [] i e = absurd (none≢some e)
parse_int_bound (c ∷ s) i e = elim (Bool-cases (eqb c b'-')) [
  | inl p ↦ bounded_below (parse_nat s) i (rw (p, parse_int) at e)
  | inr p ↦ elim (Bool-cases (eqb c b'+')) [
    | inl q ↦ bounded (parse_nat s) i (rw (p, q, parse_int) at e)
    | inr q ↦ bounded (parse_nat (c ∷ s)) i (rw (p, q, parse_int) at e)
  ]
]
