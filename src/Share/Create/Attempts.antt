-- ===== src/Share/Create/Attempts.antt =====
-- usecase/share/create.go: the retry loop of `Create`.
use youpass_share_service.Base.{
  Bool, Bool-cases, Bytes, Int64, ap, false, if◌then◌else◌, inl, inr, none, refl, subst, suc, sym,
  true, zero, ℕ, ◌∙◌, ◌≡◌, ◌⊎◌, nat_eq, bytes_eq_instance,
}
use youpass_share_service.Domain.Error.{
  Error, already_shared, duplicate_code, eq_of_err_is, err_is, link_not_found,
}
use youpass_share_service.Domain.Link.{Link, Time, new_link}
use youpass_share_service.Outcome.{
  Act, Outcome, Post, Post-bind, Post-by, Post-handle, Post-mono, ret, throw, ◌>>=◌,
}
use youpass_share_service.Share.Coherence.{IsLawful, table_of}
use youpass_share_service.Share.Contract.{IsFault, Misses, write}
use youpass_share_service.Share.Ports.{CreateInput}
use youpass_share_service.Share.Service.{
  Post-on_env, Post-on_repo, Service, World, attempts, insert_step, on_env, on_repo,
}
use youpass_share_service.Share.Create.Results.{Alike, Alike-post, Fails, IsShared, Makes}

module _ {R C K V G : Type 0} (sv : Service R C K V G) (laws : IsLawful sv) where
  -- The loser of a race gets the winner's link.
  lost_race :
      (input : CreateInput) (w : World R C K V G)
      → laws.repo.Inv w.repo
      → IsShared (table_of sv laws w) input
      → Post
          ((on_repo (sv.links.find_by_resource input.resource_type input.resource_id)
              >>= λ existing. ret (existing, false))
            w)
          (Makes sv laws input w)
          (Fails sv laws w)
  lost_race input w inv shared =
      let find = sv.links.find_by_resource input.resource_type input.resource_id in
      Post-bind _ _ (on_repo find) (λ existing. ret (existing, false)) w
        (Post-on_repo _ _ find w (
          Post-mono _ _ _ _ (find w.repo)
            (laws.repo.find_by_resource_lem input.resource_type input.resource_id w.repo inv)
            (λ l r (at, shares, same, inv'). (inr (refl, at, shares, same), (inv', refl)))
            (λ e r (misses, same, inv'). (inr (inr (fault_of e misses)), same, (inv', refl)))))
    where
      fault_of :
          (e : Error) → Misses link_not_found e (IsShared (table_of sv laws w) input) → IsFault e
      fault_of e (inl (_, none')) = absurd (none' shared)
      fault_of e (inr fault) = fault

  inserted :
      (input : CreateInput) (code : Bytes) (w : World R C K V G) (l : Link) (r : R) (id : Int64)
      (t : Time)
      → table_of sv laws w code ≡ none
      → (¬ IsShared (table_of sv laws w) input)
      → l
        ≡ record (new_link code input.owner_id input.resource_type input.resource_id
            input.expires_at) { id = id; created_at = t }
      → laws.repo.table r ≡ write (table_of sv laws w) code l
      → laws.repo.Inv r
      → Makes sv laws input w (l, true) (record w { repo = r })
  unfolding new_link
  inserted input code w l r id t free unshared e rows inv =
      let key : l.code ≡ code = ap (λ x. x.code) e in
      (
        inl (
          refl,
          subst (λ c. table_of sv laws w c ≡ none) (sym key) free,
          unshared,
          (
            id,
            t,
            e
                ∙ ap
                    (λ c.
                      record (new_link c input.owner_id input.resource_type input.resource_id
                        input.expires_at) { id = id; created_at = t })
                    (sym key),
          ),
          subst (λ c. laws.repo.table r ≡ write (table_of sv laws w) c l) (sym key) rows,
        ),
        (inv, refl),
      )

  fault_is_not : (e x : Error) → IsFault e → ¬ IsFault x → err_is e x ≡ false
  fault_is_not e x fault n = elim (Bool-cases (err_is e x)) [
    | inl same ↦ absurd (n (subst IsFault (eq_of_err_is e x same) fault))
    | inr differs ↦ differs
  ]

  -- What the loop does with an error of Insert.
  abbrev on_failure :
      Act (World R C K V G) (Link × Bool)
      → CreateInput
      → Error
      → Act (World R C K V G) (Link × Bool)
  on_failure retry input e =
      if err_is e duplicate_code
      then retry
      else if err_is e already_shared
      then (on_repo (sv.links.find_by_resource input.resource_type input.resource_id)
          >>= λ existing. ret (existing, false))
      else throw e

  not_inserted :
      (retry : Act (World R C K V G) (Link × Bool)) (input : CreateInput) (w : World R C K V G)
      (e : Error) (w₁ : World R C K V G)
      → Alike sv laws w w₁
      → Post (retry w₁) (Makes sv laws input w₁) (Fails sv laws w₁)
      → ((e ≡ duplicate_code)
          ⊎ (((e ≡ already_shared) × IsShared (table_of sv laws w) input) ⊎ IsFault e))
      → Post (on_failure retry input e w₁) (Makes sv laws input w) (Fails sv laws w)
  unfolding err_is
  not_inserted retry input w e w₁ alike again (inl p) =
      subst (λ x. Post (on_failure retry input x w₁) (Makes sv laws input w) (Fails sv laws w))
        (sym p) (Alike-post sv laws input w w₁ (retry w₁) alike again)
  not_inserted retry input w e w₁ alike again (inr (inl (p, shared))) =
      let shared' = subst (λ t. IsShared t input) (sym alike.0) shared in
      subst (λ x. Post (on_failure retry input x w₁) (Makes sv laws input w) (Fails sv laws w))
        (sym p)
        (Alike-post sv laws input w w₁ (on_failure retry input already_shared w₁) alike
          (lost_race input w₁ alike.1.0 shared'))
  not_inserted retry input w e w₁ alike again (inr (inr fault)) =
      Post-by _ _ (on_failure retry input e w₁) (throw e w₁)
        (rw (
          fault_is_not e duplicate_code fault (λ b. b),
          fault_is_not e already_shared fault (λ b. b),
        ))
        (inr (inr fault), alike.0, alike.1)

  insert_step_lem :
      (retry : Act (World R C K V G) (Link × Bool)) (input : CreateInput) (code : Bytes)
      (w : World R C K V G)
      → laws.repo.Inv w.repo
      → ((w₁ : World R C K V G)
          → Alike sv laws w w₁
          → Post (retry w₁) (Makes sv laws input w₁) (Fails sv laws w₁))
      → Post (insert_step sv retry input code w) (Makes sv laws input w) (Fails sv laws w)
  unfolding insert_step new_link
  insert_step_lem retry input code w inv again =
      let link =
        new_link code input.owner_id input.resource_type input.resource_id input.expires_at in
      Post-handle _ _ (on_repo (sv.links.insert link)) _ _ w (
        Post-on_repo _ _ (sv.links.insert link) w (
          Post-mono _ _ _ _ (sv.links.insert link w.repo)
            (laws.repo.insert_lem link w.repo refl inv)
            (λ l r (free, unshared, (id, t, e), rows, inv').
              inserted input code w l r id t free unshared e rows inv')
            (λ e r (why, same, inv').
              let alike : Alike sv laws w (record w { repo = r }) = (same, (inv', refl)) in
              not_inserted retry input w e (record w { repo = r }) alike
                (again (record w { repo = r }) alike) (reason e why))))
    where
      reason :
          {P : Type 0} {Q : Type 0} (e : Error)
          → (((e ≡ duplicate_code) × P) ⊎ (((e ≡ already_shared) × Q) ⊎ IsFault e))
          → (e ≡ duplicate_code) ⊎ (((e ≡ already_shared) × Q) ⊎ IsFault e)
      reason e (inl (p, _)) = inl p
      reason e (inr q) = inr q

  drawn_lem :
      (retry : Act (World R C K V G) (Link × Bool)) (input : CreateInput) (w : World R C K V G)
      → laws.repo.Inv w.repo
      → ((w₁ : World R C K V G)
          → Alike sv laws w w₁
          → Post (retry w₁) (Makes sv laws input w₁) (Fails sv laws w₁))
      → (o : Outcome G Bytes) → sv.new_code w.env ≡ o
      → Post o
          (λ code g.
            Post
              (insert_step sv retry input code (record w { env = g }))
              (Makes sv laws input w)
              (Fails sv laws w))
          (λ e g. Fails sv laws w e (record w { env = g }))
  drawn_lem retry input w inv again (ret code g) e =
      let w₁ = record w { env = g } in
      let alike : Alike sv laws w w₁ = (refl, (inv, refl)) in
      Alike-post sv laws input w w₁ (insert_step sv retry input code w₁) alike
        (insert_step_lem retry input code w₁ inv again)
  drawn_lem retry input w inv again (throw x g) e = (inr (inl (w.env, g, e)), refl, (inv, refl))

  -- The loop, from any world: also when another request has shared the resource meanwhile.
  pub attempts_lem :
      (n : ℕ) (input : CreateInput) (w : World R C K V G)
      → laws.repo.Inv w.repo
      → Post (attempts sv n input w) (Makes sv laws input w) (Fails sv laws w)
  unfolding attempts
  attempts_lem zero input w inv = (inl refl, refl, (inv, refl))
  attempts_lem (suc n) input w inv =
      Post-bind _ _ (on_env sv.new_code) (insert_step sv (attempts sv n input) input) w (
        Post-on_env _ _ sv.new_code w (
          drawn_lem (attempts sv n input) input w inv (λ w₁ a. attempts_lem n input w₁ a.1.0)
            (sv.new_code w.env) refl))
