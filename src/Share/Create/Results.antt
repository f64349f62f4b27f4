-- ===== src/Share/Create/Results.antt =====
-- usecase/share/create.go: what `Create` may answer, and why it may fail.
use youpass_share_service.Base.{
  Bool, Bytes, Int64, false, none, some, subst, true, ◌∙◌, ◌≡◌, ◌⊎◌, nat_eq, bytes_eq_instance,
}
use youpass_share_service.Domain.Error.{Error, code_exhausted}
use youpass_share_service.Domain.Link.{Link, Time, new_link}
use youpass_share_service.Outcome.{Outcome, Post, Post-mono, throw}
use youpass_share_service.Share.Coherence.{IsLawful, table_of}
use youpass_share_service.Share.Contract.{Holds, IsFault, Shares, Table, write}
use youpass_share_service.Share.Ports.{CreateInput}
use youpass_share_service.Share.Service.{Service, World}

-- l is the link that `NewLink` makes of the input under some code, with the ID and the time that
-- the repository gives it.
abbrev pub IsMadeOf : CreateInput → Link → Type 0
IsMadeOf input l =
    (id : Int64) × (t : Time) × (l
      ≡ record (new_link l.code input.owner_id input.resource_type input.resource_id
          input.expires_at) { id = id; created_at = t })

-- The rows of t have a live link of the input's resource.
abbrev pub IsShared : Table → CreateInput → Type 0
IsShared t input = (c : Bytes) × Holds t c (Shares input.resource_type input.resource_id)

module _ {R C K V G : Type 0} (sv : Service R C K V G) (laws : IsLawful sv) where
  -- From rows t: either the link is new, of a resource that had none, and the rows have it under
  -- a code that was never used; or it is the resource's live link, and the rows are as before.
  abbrev pub Made : CreateInput → Table → Link × Bool → World R C K V G → Type 0
  Made input t (l, created) w' =
      ((created ≡ true)
        × (t l.code ≡ none)
        × (¬ IsShared t input)
        × IsMadeOf input l
        × (table_of sv laws w' ≡ write t l.code l))
      ⊎ ((created ≡ false)
          × (t l.code ≡ some l)
          × Shares input.resource_type input.resource_id l
          × (table_of sv laws w' ≡ t))

  -- The repository is sound, and the cache has not been touched.
  abbrev pub Holding : World R C K V G → World R C K V G → Type 0
  Holding w w' = laws.repo.Inv w'.repo × (w'.cached ≡ w.cached)

  -- Three codes were taken, or the generator failed, or a port did.
  abbrev pub GivesUp : Error → Type 0
  GivesUp e =
      (e ≡ code_exhausted) ⊎ (((g : G) × (g' : G) × (sv.new_code g ≡ throw e g')) ⊎ IsFault e)

  abbrev pub Makes : CreateInput → World R C K V G → Link × Bool → World R C K V G → Type 0
  Makes input w r w' = Made input (table_of sv laws w) r w' × Holding w w'

  abbrev pub Fails : World R C K V G → Error → World R C K V G → Type 0
  Fails w e w' = GivesUp e × (table_of sv laws w' ≡ table_of sv laws w) × Holding w w'

  -- A world with the same rows and the same cache.
  abbrev pub Alike : World R C K V G → World R C K V G → Type 0
  Alike w w₁ = (table_of sv laws w₁ ≡ table_of sv laws w) × Holding w w₁

  pub Makes-Alike :
      (input : CreateInput) (w w₁ : World R C K V G) (r : Link × Bool) (w' : World R C K V G)
      → Alike w w₁
      → Makes input w₁ r w'
      → Makes input w r w'
  Makes-Alike input w w₁ r w' (rows, (_, cached)) (made, (inv, cached')) =
      (subst (λ x. Made input x r w') rows made, (inv, cached' ∙ cached))

  pub Fails-Alike :
      (w w₁ : World R C K V G) (e : Error) (w' : World R C K V G)
      → Alike w w₁
      → Fails w₁ e w'
      → Fails w e w'
  Fails-Alike w w₁ e w' (rows, (_, cached)) (why, rows', (inv, cached')) =
      (why, rows' ∙ rows, (inv, cached' ∙ cached))

  pub Alike-post :
      (input : CreateInput) (w w₁ : World R C K V G) (o : Outcome (World R C K V G) (Link × Bool))
      → Alike w w₁
      → Post o (Makes input w₁) (Fails w₁)
      → Post o (Makes input w) (Fails w)
  Alike-post input w w₁ o alike h =
      Post-mono _ _ _ _ o h (λ r w' m. Makes-Alike input w w₁ r w' alike m)
        (λ e w' f. Fails-Alike w w₁ e w' alike f)
