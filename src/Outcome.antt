-- ===== src/Outcome.antt =====
-- A Go function that may fail, on a state: `ret a s` is the result a with a nil error, `throw e s`
-- the error e. Both carry the state that the call leaves.
use youpass_share_service.Base.{inl, inr, refl, subst, sym, ◌≡◌, ◌⊎◌}
use youpass_share_service.Domain.Error.{Error}

pub data Outcome {ℓ κ} (S : Type ℓ) (A : Type κ) : Type (ℓ ⊔ κ) where
  ret : A → S → Outcome S A
  throw : Error → S → Outcome S A

abbrev pub Act {ℓ κ} : Type ℓ → Type κ → Type (ℓ ⊔ κ)
Act S A = S → Outcome S A

-- `if err != nil { return ..., err }` after the call.
infixl 5 ◌>>=◌ ◌>>◌
abbrev pub ◌>>=◌ {ℓ κ μ} :
    {S : Type ℓ} {A : Type κ} {B : Type μ} → Act S A → (A → Act S B) → Act S B
◌>>=◌ m f s = elim (m s) [ ret a s' ↦ f a s' | throw e s' ↦ throw e s' ]

abbrev pub ◌>>◌ {ℓ κ μ} : {S : Type ℓ} {A : Type κ} {B : Type μ} → Act S A → Act S B → Act S B
m >> k = m >>= λ _. k

-- A call whose error the caller inspects.
abbrev pub handle {ℓ κ μ} :
    {S : Type ℓ} {A : Type κ} {B : Type μ} → Act S A → (A → Act S B) → (Error → Act S B) → Act S B
handle m f g s = elim (m s) [ ret a s' ↦ f a s' | throw e s' ↦ g e s' ]

-- A call whose error is only logged.
abbrev pub ignore {ℓ κ} : {S : Type ℓ} {A : Type κ} → Act S A → Act S (Unit {0})
ignore m s = elim (m s) [ ret a s' ↦ ret tt s' | throw e s' ↦ ret tt s' ]

-- The state that a call leaves.
abbrev pub final {ℓ κ} : {S : Type ℓ} {A : Type κ} → Outcome S A → S
final (ret a s) = s
final (throw e s) = s

pub Outcome-cases {ℓ κ} :
    {S : Type ℓ} {A : Type κ} (o : Outcome S A)
    → ((a : A) × (s : S) × (o ≡ ret a s)) ⊎ ((e : Error) × (s : S) × (o ≡ throw e s))
Outcome-cases (ret a s) = inl (a, s, refl)
Outcome-cases (throw e s) = inr (e, s, refl)

-- After a call whose error is only logged, the next one is made in the state that it left.
pub ignore_then {ℓ κ μ} :
    {S : Type ℓ} {A : Type κ} {B : Type μ} (m : Act S A) (k : Act S B) (s : S)
    → (ignore m >> k) s ≡ k (final (m s))
ignore_then {S} {A} {B} m k s = go (m s)
  where
    go : (o : Outcome S A) → (ignore (λ _. o) >> k) s ≡ k (final o)
    go (ret a t) = refl
    go (throw x t) = refl

-- `ok` of the result and the state after a success, `bad` of the error and the state after a
-- failure.
abbrev pub Post {ℓ κ μ} :
    {S : Type ℓ} {A : Type κ} → Outcome S A → (A → S → Type μ) → (Error → S → Type μ) → Type μ
Post (ret a s) ok bad = ok a s
Post (throw e s) ok bad = bad e s

pub Post-by {ℓ κ μ} :
    {S : Type ℓ} {A : Type κ} (P : A → S → Type μ) (Q : Error → S → Type μ) (o o' : Outcome S A)
    → o ≡ o'
    → Post o' P Q
    → Post o P Q
Post-by P Q o o' e h = subst (λ x. Post x P Q) (sym e) h

-- Rules that prove a postcondition of a composed call from those of its parts.
module _ {ℓ κ} {S : Type ℓ} {A : Type κ} where
  pub Post-mono {μ ν} :
      (P : A → S → Type μ) (Q : Error → S → Type μ) (P' : A → S → Type ν) (Q' : Error → S → Type ν)
      (o : Outcome S A)
      → Post o P Q
      → ((a : A) (s : S) → P a s → P' a s)
      → ((e : Error) (s : S) → Q e s → Q' e s)
      → Post o P' Q'
  Post-mono P Q P' Q' (ret a s) h f g = f a s h
  Post-mono P Q P' Q' (throw e s) h f g = g e s h

  Post-handle_outcome {μ ν} :
      {B : Type μ} (P : B → S → Type ν) (Q : Error → S → Type ν) (o : Outcome S A) (f : A → Act S B)
      (g : Error → Act S B)
      → Post o (λ a s. Post (f a s) P Q) (λ e s. Post (g e s) P Q)
      → Post (elim o [ ret a s ↦ f a s | throw e s ↦ g e s ]) P Q
  Post-handle_outcome P Q (ret a s) f g h = h
  Post-handle_outcome P Q (throw e s) f g h = h

  pub Post-handle {μ ν} :
      {B : Type μ} (P : B → S → Type ν) (Q : Error → S → Type ν) (m : Act S A) (f : A → Act S B)
      (g : Error → Act S B) (w : S)
      → Post (m w) (λ a s. Post (f a s) P Q) (λ e s. Post (g e s) P Q)
      → Post (handle m f g w) P Q
  Post-handle P Q m f g w h = Post-handle_outcome P Q (m w) f g h

  pub Post-bind {μ ν} :
      {B : Type μ} (P : B → S → Type ν) (Q : Error → S → Type ν) (m : Act S A) (f : A → Act S B)
      (w : S)
      → Post (m w) (λ a s. Post (f a s) P Q) Q
      → Post ((m >>= f) w) P Q
  Post-bind P Q m f w h = Post-handle_outcome P Q (m w) f throw h

  pub Post-ignore {ν} :
      (P : Unit {0} → S → Type ν) (Q : Error → S → Type ν) (m : Act S A) (w : S)
      → Post (m w) (λ _ s. P tt s) (λ _ s. P tt s)
      → Post (ignore m w) P Q
  Post-ignore P Q m w h = Post-handle_outcome P Q (m w) (λ _. ret tt) (λ _. ret tt) h

-- A call on a part of a larger state.
pub Post-move {ℓ κ ν μ} :
    {S : Type ℓ} {W : Type ν} {A : Type κ} (P : A → W → Type μ) (Q : Error → W → Type μ)
    (o : Outcome S A) (back : S → W)
    → Post o (λ a s. P a (back s)) (λ e s. Q e (back s))
    → Post (elim o [ ret a s ↦ ret a (back s) | throw e s ↦ throw e (back s) ]) P Q
Post-move P Q (ret a s) back h = h
Post-move P Q (throw e s) back h = h

-- An outcome is what it is.
pub Post-self {ℓ κ} :
    {S : Type ℓ} {A : Type κ} (o : Outcome S A) → Post o (λ a s. o ≡ ret a s) (λ e s. o ≡ throw e s)
Post-self (ret a s) = refl
Post-self (throw e s) = refl

-- What holds anyway holds after a call.
pub Post-always {ℓ κ μ} :
    {S : Type ℓ} {A : Type κ} (X : Type μ) (o : Outcome S A) → X → Post o (λ _ _. X) (λ _ _. X)
Post-always X (ret a s) x = x
Post-always X (throw e s) x = x

-- What a postcondition says of an outcome that is known.
module _ {ℓ κ μ} {S : Type ℓ} {A : Type κ} (P : A → S → Type μ) (Q : Error → S → Type μ) where
  pub Post-ret : (o : Outcome S A) (a : A) (s : S) → Post o P Q → o ≡ ret a s → P a s
  Post-ret o a s h e = subst (λ x. Post x P Q) e h

  pub Post-throw : (o : Outcome S A) (x : Error) (s : S) → Post o P Q → o ≡ throw x s → Q x s
  Post-throw o x s h e = subst (λ y. Post y P Q) e h
