-- ===== src/Share/Create.antt =====
-- usecase/share/create.go: a resource gets one live link, whoever asks for it and however often.
mod Results
mod Attempts
unfoldable pub use Results.*
use youpass_share_service.Base.{
  Bool, Bool-cases, arith, false, if◌then◌else◌, inl, inr, not, refl, subst, true, ◌≡◌, ◌⊎◌,
}
use youpass_share_service.Domain.Error.{
  Error, err_is, err_is_refl, forbidden, invalid_resource_type, link_not_found,
}
use youpass_share_service.Domain.Link.{resource_valid}
use youpass_share_service.Outcome.{
  Outcome, Outcome-cases, Post, Post-by, Post-handle, Post-mono, ret, throw,
}
use youpass_share_service.Share.Coherence.{IsLawful, table_of}
use youpass_share_service.Share.Contract.{IsFault, Misses}
use youpass_share_service.Share.Ports.{CreateInput}
use youpass_share_service.Share.Service.{
  Post-on_repo, Service, World, attempts, create, max_code_retry, obtain, on_repo,
}
use youpass_share_service.Share.Create.Attempts.{attempts_lem}

module _ {R C K V G : Type 0} (sv : Service R C K V G) (laws : IsLawful sv) where
  IsFault-left :
      (e : Error) (P : Type 0)
      → err_is e link_not_found ≡ false
      → Misses link_not_found e P
      → IsFault e
  IsFault-left e P other (inl (p, _)) =
      absurd (cc (err_is_refl link_not_found, subst (λ x. err_is x link_not_found ≡ false) p other))
  IsFault-left e P other (inr fault) = fault

  not_shared_yet :
      (input : CreateInput) (w : World R C K V G) (e : Error) (w₁ : World R C K V G)
      → Alike sv laws w w₁
      → Misses link_not_found e (IsShared (table_of sv laws w) input)
      → Post
          ((if not (err_is e link_not_found) then throw e else attempts sv max_code_retry input) w₁)
          (Makes sv laws input w)
          (Fails sv laws w)
  not_shared_yet input w e w₁ alike why = elim (Bool-cases (err_is e link_not_found)) [
    | inl missed ↦ rw missed (
        Alike-post sv laws input w w₁ (attempts sv max_code_retry input w₁) alike
          (attempts_lem sv laws max_code_retry input w₁ alike.1.0))
    | inr other ↦ rw other (inr (inr (IsFault-left e _ other why)), alike.0, alike.1)
  ]

  obtain_lem :
      (input : CreateInput) (w : World R C K V G)
      → laws.repo.Inv w.repo
      → Post (obtain sv input w) (Makes sv laws input w) (Fails sv laws w)
  unfolding obtain
  obtain_lem input w inv =
      let find = sv.links.find_by_resource input.resource_type input.resource_id in
      Post-handle _ _ (on_repo find) _ _ w (
        Post-on_repo _ _ find w (
          Post-mono _ _ _ _ (find w.repo)
            (laws.repo.find_by_resource_lem input.resource_type input.resource_id w.repo inv)
            (λ l r (at, shares, same, inv'). (inr (refl, at, shares, same), (inv', refl)))
            (λ e r (misses, same, inv').
              not_shared_yet input w e (record w { repo = r }) (same, (inv', refl)) misses)))

  -- The submissions' answer to whether the input's owner owns the resource.
  abbrev pub ownership : CreateInput → World R C K V G → Outcome K Bool
  ownership input w =
      sv.content.is_owner input.resource_type input.resource_id input.owner_id w.submissions

  -- Why `Create` fails: in the order of its checks.
  abbrev pub Rejects : CreateInput → World R C K V G → Error → Type 0
  Rejects input w e =
      ((e ≡ invalid_resource_type) × (resource_valid input.resource_type ≡ false))
      ⊎ (((e ≡ forbidden) × ((k : K) × (ownership input w ≡ ret false k)))
          ⊎ (((k : K) × (ownership input w ≡ throw e k)) ⊎ GivesUp sv laws e))

  -- `Create`, on ports that keep their laws and a sound repository. It succeeds only for a valid
  -- resource type and an owner whom the submissions confirm. Either the resource had no live link,
  -- and the link is made of the input, under a code that was never used before, and is the only
  -- change to the rows; or the link is the live one of the resource, and the rows are as before.
  -- An error is `ErrInvalidResourceType`, `ErrForbidden` where the submissions deny the ownership,
  -- the submissions' own, `ErrCodeExhausted`, the generator's or a fault, and leaves the rows as
  -- before. The cache is left alone.
  pub create_answers :
      (input : CreateInput) (w : World R C K V G)
      → laws.repo.Inv w.repo
      → Post
          (create sv input w)
          (λ r w'.
            (resource_valid input.resource_type ≡ true)
            × ((k : K) × (ownership input w ≡ ret true k))
            × Made sv laws input (table_of sv laws w) r w'
            × Holding sv laws w w')
          (λ e w'.
            Rejects input w e × (table_of sv laws w' ≡ table_of sv laws w) × Holding sv laws w w')
  unfolding create
  create_answers input w inv = elim (Bool-cases (resource_valid input.resource_type)) [
    | inr bad ↦
        Post-by _ _ (create sv input w) (throw invalid_resource_type w) (ground arith)
          (inl (refl, bad), refl, (inv, refl))
    | inl good ↦ elim (Outcome-cases (ownership input w)) [
      | inr (x, k, e) ↦
          Post-by _ _ (create sv input w) (throw x (record w { submissions = k })) (ground arith)
            (inr (inr (inl (k, e))), refl, (inv, refl))
      | inl (false, k, e) ↦
          Post-by _ _ (create sv input w) (throw forbidden (record w { submissions = k }))
            (ground arith) (inr (inl (refl, (k, e))), refl, (inv, refl))
      | inl (true, k, e) ↦
          Post-by _ _ (create sv input w) (obtain sv input (record w { submissions = k }))
            (ground arith)
            (Post-mono _ _ _ _ (obtain sv input (record w { submissions = k }))
              (obtain_lem input (record w { submissions = k }) inv)
              (λ r w' (made, holding). (good, (k, e), made, holding))
              (λ x w' (why, rows, holding). (inr (inr (inr why)), rows, holding)))
    ]
  ]
