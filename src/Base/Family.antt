-- ===== src/Base/Family.antt =====
-- Families of values by thread: a change at one index, and sums of weights over the first n.
use Prim.Native.Nat.{ℕ, zero, suc, ◌+◌, ◌≤◌, ◌<◌}
use mathlib.Core.Path.{◌≡◌, refl}
use mathlib.Core.Logic.{inl, inr}
use native.Mathlib.Omega.{arith}
use youpass_share_service.Base.Tests.{Bool-cases, eqb, eqb_iff, if◌then◌else◌}

abbrev pub update {ℓ} : {A : Type ℓ} → (ℕ → A) → ℕ → A → ℕ → A
update f i a j = if eqb i j then a else f j

-- What holds of every member still does once it holds of the new one.
pub update_all {ℓ κ} :
    {A : Type ℓ} (P : ℕ → A → Type κ) (f : ℕ → A) (i : ℕ) (a : A)
    → ((j : ℕ) → P j (f j))
    → P i a
    → (j : ℕ) → P j (update f i a j)
update_all P f i a old new j = elim (Bool-cases (eqb i j)) [
  | inl q ↦ let e : i ≡ j = (eqb_iff i j).0 q in rw (q, ← e) new
  | inr q ↦ rw q (old j)
]

module _ {ℓ} {A : Type ℓ} (weight : A → ℕ) where
  unfoldable pub total : ℕ → (ℕ → A) → ℕ
  total zero f = 0
  total (suc n) f = total n f + weight (f n)

  total_beyond : (n : ℕ) (f : ℕ → A) (i : ℕ) (a : A) → n ≤ i → total n (update f i a) ≡ total n f
  unfolding total
  total_beyond zero f i a h = refl
  total_beyond (suc n) f i a h = ground (arith, total_beyond n f i a)

  pub total-update :
      (n : ℕ) (f : ℕ → A) (i : ℕ) (a : A)
      → i < n
      → total n (update f i a) + weight (f i) ≡ total n f + weight a
  unfolding total
  total-update zero f i a h = absurd (omega arith)
  total-update (suc n) f i a h = elim (Bool-cases (eqb i n)) [
    | inl q ↦ ground (arith, total_beyond n f i a)
    | inr q ↦ ground (arith, total-update n f i a)
  ]

  pub total_zero : (n : ℕ) (f : ℕ → A) → ((i : ℕ) → i < n → weight (f i) ≡ 0) → total n f ≡ 0
  unfolding total
  total_zero zero f h = refl
  total_zero (suc n) f h =
      let here = h n (omega arith) in
      let rest = total_zero n f (λ i lt. h i (omega arith)) in omega (arith, here, rest)
