-- ===== src/Domain/Viewer/Keys.antt =====
-- viewer.go: what the keys of two viewers tell of them.
use youpass_share_service.Base.{
  Bool-cases, Bytes, ap, arith, get_or, inl, inr, is_positive, sym, tail, take, true, true≢false,
  ◌<◌, ◌^◌, ◌∙◌, ◌∷◌, ◌≡◌, ◌⊎◌,
}
use youpass_share_service.Base.Decimal.{format_int_injective}
use youpass_share_service.Domain.Viewer.{Viewer, hex, key}

-- Logged in.
abbrev pub IsUser : Viewer → Type 0
IsUser v = is_positive v.user_id ≡ true

-- The first byte tells a user's key from a guest's.
apart : {s : Bytes} {t : Bytes} → ¬ (b'u' ∷ s ≡ b'a' ∷ t)
apart e = omega (arith, ap (λ (l : Bytes). get_or l 0 0) e)

-- Two viewers with int64 IDs have one `Key` only if both are logged in and are one user, or both
-- are guests whose digests agree in their first eight bytes, in hexadecimal.
pub key_eq :
    (sha256 : Bytes → Bytes) (v w : Viewer)
    → v.user_id < 2 ^ 64
    → w.user_id < 2 ^ 64
    → key sha256 v ≡ key sha256 w
    → (IsUser v × IsUser w × (v.user_id ≡ w.user_id))
      ⊎ ((¬ IsUser v)
          × (¬ IsUser w)
          × (hex (take 8 (sha256 v.visitor_id)) ≡ hex (take 8 (sha256 w.visitor_id))))
unfolding key
key_eq sha256 v w hv hw e = elim (Bool-cases (is_positive v.user_id)) [
  | inl p ↦ elim (Bool-cases (is_positive w.user_id)) [
    | inl q ↦ inl (p, q, format_int_injective v.user_id w.user_id hv hw (ap tail (rw (p, q) at e)))
    | inr q ↦ absurd (apart (rw (p, q) at e))
  ]
  | inr p ↦ elim (Bool-cases (is_positive w.user_id)) [
    | inl q ↦ absurd (apart (sym (rw (p, q) at e)))
    | inr q ↦
        inr (λ h. true≢false (sym h ∙ p), λ h. true≢false (sym h ∙ q), ap tail (rw (p, q) at e))
  ]
]
