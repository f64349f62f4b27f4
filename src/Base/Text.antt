-- ===== src/Base/Text.antt =====
-- Go strings as lists of bytes, and int64 values as 64-bit patterns.
use Prim.Native.Nat.{ℕ, ◌+◌, ◌%◌, ◌^◌}
use Prim.Native.Char.{code}
use Prim.Native.String.{String}
use mathlib.Core.Path.{◌≡◌, refl}
use mathlib.Core.Logic.{◌↔◌}
use mathlib.Core.Bool.{Bool, true, false, ◌&&◌}
use mathlib.Core.List.{List, [], ◌∷◌}
use native.Mathlib.Omega.{arith}
use youpass_share_service.Base.Tests.{Comparable, eqb, leb, ltb}

abbrev pub Bytes : Type 0
Bytes = List ℕ

-- The bytes of an ASCII text.
abbrev pub codes : String → Bytes
codes String.[] = []
codes (String.◌∷◌ c s) = code c ∷ codes s

unfoldable pub bytes_eq : Bytes → Bytes → Bool
bytes_eq [] [] = true
bytes_eq (x ∷ xs) (y ∷ ys) = eqb x y && bytes_eq xs ys
bytes_eq _ _ = false

pub bytes_eq_refl : (a : Bytes) → bytes_eq a a ≡ true
unfolding bytes_eq
bytes_eq_refl [] = refl
bytes_eq_refl (x ∷ a) = ground (arith, bytes_eq_refl a)

pub eq_of_bytes_eq : (a b : Bytes) → bytes_eq a b ≡ true → a ≡ b
unfolding bytes_eq
eq_of_bytes_eq [] [] h = refl
eq_of_bytes_eq (x ∷ a) (y ∷ b) h = ground (arith, eq_of_bytes_eq a b)
eq_of_bytes_eq [] (y ∷ b) h = cc
eq_of_bytes_eq (x ∷ a) [] h = cc

pub bytes_eq_iff : (a b : Bytes) → (bytes_eq a b ≡ true) ↔ (a ≡ b)
bytes_eq_iff a b = (eq_of_bytes_eq a b, λ e. rw e (bytes_eq_refl b))

instance abbrev pub bytes_eq_instance : Comparable Bytes
bytes_eq_instance = record { same = bytes_eq; same_iff = bytes_eq_iff }

-- An int64 is its two's complement pattern, a number below 2 ^ 64.
abbrev pub Int64 : Type 0
Int64 = ℕ

-- x > 0
abbrev pub is_positive : Int64 → Bool
is_positive x = ltb 0 x && ltb x (2 ^ 63)

-- x + y, with the wrap-around
abbrev pub add64 : Int64 → Int64 → Int64
add64 x y = (x + y) % 2 ^ 64

-- x <= y, signed: the order of the patterns with the sign bit flipped
abbrev pub le64 : Int64 → Int64 → Bool
le64 x y = leb ((x + 2 ^ 63) % 2 ^ 64) ((y + 2 ^ 63) % 2 ^ 64)
