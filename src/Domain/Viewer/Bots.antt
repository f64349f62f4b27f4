-- ===== src/Domain/Viewer/Bots.antt =====
-- viewer.go: the substring test behind IsBot.
use youpass_share_service.Base.{
  Any, Bool-cases, Bytes, List, [], ap, arith, bytes_eq, eq_of_bytes_eq, eqb, false, false≢true,
  inl, inr, refl, sym, true, true≢false, ◌++◌, ◌==◌, ◌↔◌, ◌∙◌, ◌∷◌, ◌≡◌, ◌⊎◌, nat_eq,
  bytes_eq_instance,
}
use youpass_share_service.Domain.Viewer.{
  Unicode, Viewer, bot_signatures, contains, has_prefix, has_signature, is_bot, to_lower,
  trim_space,
}

abbrev pub IsInfix : Bytes → Bytes → Type 0
IsInfix sub s = (a : Bytes) × (b : Bytes) × (s ≡ a ++ (sub ++ b))

prefix_split : (s p : Bytes) → has_prefix s p ≡ true → (b : Bytes) × (s ≡ p ++ b)
unfolding has_prefix
prefix_split s [] h = (s, refl)
prefix_split [] (p ∷ ps) h = absurd (false≢true h)
prefix_split (c ∷ s) (p ∷ ps) h = elim (Bool-cases (eqb c p)) [
  | inl e ↦
      let (b, same) = prefix_split s ps (rw (e, has_prefix) at h) in (b, ground (arith, e, same))
  | inr e ↦ absurd (false≢true (rw (e, has_prefix) at h))
]

prefix_append : (p b : Bytes) → has_prefix (p ++ b) p ≡ true
unfolding has_prefix
prefix_append [] [] = refl
prefix_append [] (x ∷ b) = refl
prefix_append (c ∷ p) b = ground (arith, prefix_append p b)

contains_split : (s sub : Bytes) → contains s sub ≡ true → IsInfix sub s
unfolding contains
contains_split [] sub h = let (b, e) = prefix_split [] sub h in ([], b, e)
contains_split (c ∷ s) sub h = elim (Bool-cases (has_prefix (c ∷ s) sub)) [
  | inl e ↦ let (b, same) = prefix_split (c ∷ s) sub e in ([], b, same)
  | inr e ↦
      let (a, b, same) = contains_split s sub (rw (e, contains) at h) in (c ∷ a, b, ap (◌∷◌ c) same)
]

contains_here : (s sub : Bytes) → has_prefix s sub ≡ true → contains s sub ≡ true
unfolding contains
contains_here [] sub h = h
contains_here (c ∷ s) sub h = ground (arith, h)

contains_middle : (a sub b : Bytes) → contains (a ++ (sub ++ b)) sub ≡ true
unfolding contains
contains_middle [] sub b = contains_here (sub ++ b) sub (prefix_append sub b)
contains_middle (c ∷ a) sub b = ground (arith, contains_middle a sub b)

pub contains_iff : (s sub : Bytes) → (contains s sub ≡ true) ↔ IsInfix sub s
contains_iff s sub = (contains_split s sub, λ (a, b, e). rw e (contains_middle a sub b))

-- The user agent as it is searched.
abbrev pub agent : Unicode → Viewer → Bytes
agent u v = to_lower u (trim_space u v.user_agent)

has_signature_iff :
    (ua : Bytes) (sigs : List Bytes)
    → (has_signature ua sigs ≡ true) ↔ Any (λ sig. IsInfix sig ua) sigs
unfolding has_signature
has_signature_iff ua [] = (λ h. false≢true h, λ b. absurd b)
has_signature_iff ua (sig ∷ sigs) = ground (arith, contains_iff ua sig, has_signature_iff ua sigs)

-- `IsBot` holds exactly if the trimmed user agent is empty, or its lower case contains one of the
-- signatures as a contiguous part.
pub is_bot_iff :
    (u : Unicode) (v : Viewer)
    → (is_bot u v ≡ true) ↔ ((agent u v ≡ []) ⊎ Any (λ sig. IsInfix sig (agent u v)) bot_signatures)
unfolding is_bot bytes_eq
is_bot_iff u v = elim (Bool-cases (agent u v == [])) [
  | inl e ↦ (λ h. inl (eq_of_bytes_eq (agent u v) [] e), λ h. rw e refl)
  | inr e ↦ (
    λ h. inr ((has_signature_iff (agent u v) bot_signatures).0 (rw (e, is_bot) at h)),
    λ h. rw e ((has_signature_iff (agent u v) bot_signatures).1 (named h e)),
  )
]
  where
    named : {P : Type 0} → (agent u v ≡ []) ⊎ P → (agent u v == []) ≡ false → P
    named (inl p) e = absurd (true≢false (sym (rw p refl) ∙ e))
    named (inr x) e = x
