-- ===== src/Share/Rivals/Alone.antt =====
-- create.go: a call of Create that nobody interrupts takes the accesses of Share.Rivals.
use youpass_share_service.Base.{
  Bool, Bool-cases, Bytes, ap, false, inl, inr, subst, suc, sym, true, true≢false, zero, ℕ, ◌∙◌,
  ◌≡◌, ◌≢◌, nat_eq, bytes_eq_instance,
}
use youpass_share_service.Domain.Error.{
  Error, already_shared, duplicate_code, eq_of_err_is, err_is, err_is_refl, link_not_found,
}
use youpass_share_service.Domain.Link.{Link}
use youpass_share_service.Outcome.{
  Act, Outcome, Post, Post-bind, Post-handle, Post-mono, Post-self, ret, throw, ◌>>=◌,
}
use youpass_share_service.Share.Ports.{CreateInput, LinkRepository}
use youpass_share_service.Share.Service.{
  Post-on_env, Post-on_repo, Service, World, attempts, insert_step, max_code_retry, obtain, on_env,
  on_repo,
}
use youpass_share_service.Share.Rivals.{
  Access, Caller, asking, code_taken, drawing, drawn, exhausted, existing, failed, inserted,
  inserting, none_yet, not_asked, not_drawn, not_inserted, not_reread, reread, rereading,
  resource_taken, returned, wanted,
}

-- The accesses of one call, one after the other.
pub data Goes {R : Type 0} (links : LinkRepository R) (input : CreateInput)
    : R → Caller → R → Caller → Type 0 where
  stays : {r : R} {c : Caller} → Goes links input r c r c
  goes :
      {r : R} {c : Caller} {s : R} {d : Caller} {t : R} {e : Caller}
      → Access links input r c s d
      → Goes links input s d t e
      → Goes links input r c t e

module _ {R C K V G : Type 0} (sv : Service R C K V G) (input : CreateInput) where
  abbrev W : Type 0
  W = World R C K V G

  -- From a call's place at c on, the outcome is one that accesses lead to.
  abbrev pub Follows : R → Caller → Outcome W (Link × Bool) → Type 0
  Follows r c o =
      Post o (λ a w. Goes sv.links input r c w.repo (returned a.0 a.1))
        (λ e w. Goes sv.links input r c w.repo (failed e))

  after :
      (r s : R) (c d : Caller) (o : Outcome W (Link × Bool))
      → Access sv.links input r c s d
      → Follows s d o
      → Follows r c o
  after r s c d (ret a w) step rest = goes step rest
  after r s c d (throw e w) step rest = goes step rest

  differs : (e x : Error) → err_is e x ≡ false → e ≢ x
  differs e x n is = true≢false (sym (subst (λ y. err_is e y ≡ true) is (err_is_refl e)) ∙ n)

  -- The look-up after ErrAlreadyShared.
  again :
      (w : W) (r : R) (n : ℕ) (code : Bytes)
      → Access sv.links input r (inserting n code) w.repo rereading
      → Follows r (inserting n code) (
          (on_repo (sv.links.find_by_resource input.resource_type input.resource_id)
              >>= (λ l. ret (l, false)))
            w)
  again w r n code taken =
      Post-bind _ _ (on_repo (sv.links.find_by_resource input.resource_type input.resource_id)) _ w
        (Post-on_repo _ _ (sv.links.find_by_resource input.resource_type input.resource_id) w (
          Post-mono _ _ _ _ (sv.links.find_by_resource input.resource_type input.resource_id w.repo)
            (Post-self (sv.links.find_by_resource input.resource_type input.resource_id w.repo))
            (λ l s e. goes taken (goes (reread e) stays))
            (λ x s e. goes taken (goes (not_reread e) stays))))

  insert_step-Follows :
      (n : ℕ) (code : Bytes) (retry : Act W (Link × Bool)) (w : W)
      → ((v : W) → Follows v.repo (drawing n) (retry v))
      → Follows w.repo (inserting n code) (insert_step sv retry input code w)
  unfolding insert_step
  insert_step-Follows n code retry w later =
      Post-handle _ _ (on_repo (sv.links.insert (wanted input code))) _ _ w (
        Post-on_repo _ _ (sv.links.insert (wanted input code)) w (
          Post-mono _ _ _ _ (sv.links.insert (wanted input code) w.repo)
            (Post-self (sv.links.insert (wanted input code) w.repo))
            (λ l s e. goes (inserted e) stays)
            (λ x s e. elim (Bool-cases (err_is x duplicate_code)) [
              | inl q ↦ rw (q) (
                  after w.repo s (inserting n code) (drawing n) _
                    (code_taken (e ∙ ap (λ y. throw y s) (eq_of_err_is x duplicate_code q)))
                    (later (record w { repo = s })))
              | inr q ↦ elim (Bool-cases (err_is x already_shared)) [
                | inr t ↦
                    rw (q, t)
                      (goes
                        (not_inserted e (differs x duplicate_code q) (differs x already_shared t))
                        stays)
                | inl t ↦
                    rw (q, t)
                      (again (record w { repo = s }) w.repo n code
                        (resource_taken
                          (e ∙ ap (λ y. throw y s) (eq_of_err_is x already_shared t))))
              ]
            ])))

  attempts-Follows : (n : ℕ) (w : W) → Follows w.repo (drawing n) (attempts sv n input w)
  unfolding attempts
  attempts-Follows zero w = goes exhausted stays
  attempts-Follows (suc n) w = Post-bind _ _ (on_env sv.new_code) _ w (
      Post-on_env _ _ sv.new_code w (
        Post-mono _ _ _ _ (sv.new_code w.env) (Post-self (sv.new_code w.env))
          (λ code g e. after w.repo w.repo (drawing (suc n)) (inserting n code) _ (drawn code) (
            insert_step-Follows n code (attempts sv n input) (record w { env = g })
              (attempts-Follows n)))
          (λ x g e. goes (not_drawn x) stays)))

  -- A call of `Create` that nobody interrupts, from its first access on, takes the accesses of the
  -- step relation: whatever it returns, a link or an error, is what they lead to from the same
  -- rows, and so are the rows that it leaves.
  pub obtain-Follows : (w : W) → Follows w.repo asking (obtain sv input w)
  unfolding obtain
  obtain-Follows w =
      Post-handle _ _ (on_repo (sv.links.find_by_resource input.resource_type input.resource_id)) _
        _ w
        (Post-on_repo _ _ (sv.links.find_by_resource input.resource_type input.resource_id) w (
          Post-mono _ _ _ _ (sv.links.find_by_resource input.resource_type input.resource_id w.repo)
            (Post-self (sv.links.find_by_resource input.resource_type input.resource_id w.repo))
            (λ l s e. goes (existing e) stays)
            (λ x s e. elim (Bool-cases (err_is x link_not_found)) [
              | inr q ↦ rw (q) (goes (not_asked e (differs x link_not_found q)) stays)
              | inl q ↦ rw (q) (
                  after w.repo s asking (drawing max_code_retry) _
                    (none_yet (e ∙ ap (λ y. throw y s) (eq_of_err_is x link_not_found q)))
                    (attempts-Follows max_code_retry (record w { repo = s })))
            ])))
