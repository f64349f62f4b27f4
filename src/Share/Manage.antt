-- ===== src/Share/Manage.antt =====
-- usecase/share/manage.go: who may change a link, what changes, and that it takes effect at once.
use youpass_share_service.Base.{
  Bool-cases, Bytes, Int64, ap, arith, bytes_eq, bytes_eq_refl, eq_of_bytes_eq, false, inl, inr,
  refl, some, subst, sym, true, ◌∙◌, ◌≡◌, ◌⊎◌, nat_eq, bytes_eq_instance,
}
use youpass_share_service.Domain.Error.{invalid_status, link_not_found}
use youpass_share_service.Domain.Link.{Link, Status, Time, status_valid}
use youpass_share_service.Domain.Viewer.{}
use youpass_share_service.Outcome.{
  Outcome, Post, Post-bind, Post-by, Post-ignore, Post-mono, ret, throw, ◌>>=◌, ◌>>◌,
}
use youpass_share_service.Share.Ports.{}
use youpass_share_service.Share.Contract.{Entry, Holds, Misses, Owns, absent, put, write}
use youpass_share_service.Share.Service.{
  Post-on_cache, Post-on_repo, Service, World, delete, invalidate, on_cache, on_repo, set_status,
}
use youpass_share_service.Share.Coherence.{Fits, IsCoherent, IsLawful, entry_of, reread, table_of}
use youpass_share_service.Share.Resolve.{Settled}

-- Two caches agree on every code but c.
abbrev pub AgreesOff : Bytes → (Bytes → Entry) → (Bytes → Entry) → Type 0
AgreesOff c t t' = (d : Bytes) → bytes_eq c d ≡ false → t' d ≡ t d

-- Where every result is good and every error is allowed.
Post-any :
    {S A : Type 0} {Q : A → S → Type 0} (o : Outcome S A)
    → ((a : A) (s : S) → Q a s)
    → Post o Q (λ _ _. Unit {0})
Post-any (ret a s) h = h a s
Post-any (throw e s) h = tt

module _ {R C K V G : Type 0} (sv : Service R C K V G) (laws : IsLawful sv) where
  -- The row of code is l now; nothing else has changed but the cache at that code.
  abbrev pub Rewrites : Bytes → Link → World R C K V G → World R C K V G → Type 0
  Rewrites code l w w' =
      (table_of sv laws w' ≡ write (table_of sv laws w) code l)
      × laws.repo.Inv w'.repo
      × AgreesOff code (entry_of sv laws w) (entry_of sv laws w')
      × (w'.env ≡ w.env)

  invalidate_lem :
      (code : Bytes) (w : World R C K V G)
      → Post
          (invalidate sv code w)
          (λ _ w'.
            (w'.repo ≡ w.repo)
            × AgreesOff code (entry_of sv laws w) (entry_of sv laws w')
            × (w'.env ≡ w.env))
          (λ _ _. ⊥)
  unfolding invalidate
  invalidate_lem code w = Post-ignore _ _ (on_cache (sv.cache.invalidate code)) w (
      Post-on_cache _ _ (sv.cache.invalidate code) w (
        Post-mono _ _ _ _ (sv.cache.invalidate code w.cached)
          (laws.cache.invalidate_lem code w.cached) (λ _ s e. (refl, dropped s (inr e), refl))
          (λ _ s e. (refl, dropped s e, refl))))
    where
      dropped :
          (s : C)
          → (laws.cache.entry s ≡ entry_of sv laws w)
            ⊎ (laws.cache.entry s ≡ put (entry_of sv laws w) code absent)
          → AgreesOff code (entry_of sv laws w) (laws.cache.entry s)
      dropped s (inl e) d off = ap (λ t. t d) e
      dropped s (inr e) d off = ap (λ t. t d) e ∙ rw off

  -- The cache does the delete of an Invalidate of code that finds it as w has it.
  abbrev pub Drops : Bytes → World R C K V G → Type 0
  Drops code w = (c : C) × (sv.cache.invalidate code w.cached ≡ ret tt c)

  invalidate-Drops :
      (code : Bytes) (w : World R C K V G)
      → Drops code w
      → Post (invalidate sv code w) (λ _ w'. entry_of sv laws w' code ≡ absent) (λ _ _. ⊥)
  unfolding invalidate
  invalidate-Drops code w (c, e) = Post-ignore _ _ (on_cache (sv.cache.invalidate code)) w (
      Post-on_cache _ _ (sv.cache.invalidate code) w (
        Post-by _ _ (sv.cache.invalidate code w.cached) (ret tt c) e (
          ap (λ t. t code) (rw (e, Post) at (laws.cache.invalidate_lem code w.cached))
          ∙ rw (bytes_eq_refl code))))

  commit-Drops :
      {A : Type 0} (code : Bytes) (a : A) (w : World R C K V G)
      → Drops code w
      → Post
          ((invalidate sv code >> ret a) w)
          (λ _ w'. entry_of sv laws w' code ≡ absent)
          (λ _ _. ⊥)
  commit-Drops code a w drops =
      Post-bind _ _ (invalidate sv code) (λ _. ret a) w (invalidate-Drops code w drops)

  -- A changed row leaves the cache true where the entry of that code is gone.
  pub Rewrites-IsCoherent :
      (code : Bytes) (l : Link) (w w' : World R C K V G)
      → IsCoherent sv laws w
      → Rewrites code l w w'
      → entry_of sv laws w' code ≡ absent
      → IsCoherent sv laws w'
  Rewrites-IsCoherent code l w w' h (rows, inv, off, _) gone = record {
    inv = inv;
    fits = λ d. at d (Bool-cases (bytes_eq code d));
  }
    where
      at :
          (d : Bytes)
          → (bytes_eq code d ≡ true) ⊎ (bytes_eq code d ≡ false)
          → Fits (entry_of sv laws w' d) (table_of sv laws w' d)
      at d (inl e) =
          subst (λ c. Fits (entry_of sv laws w' c) (table_of sv laws w' c))
            (eq_of_bytes_eq code d e) (subst (λ x. Fits x (table_of sv laws w' code)) (sym gone) tt)
      at d (inr e) =
          subst (λ x. Fits x (table_of sv laws w' d)) (sym (off d e))
            (subst (Fits (entry_of sv laws w d)) (sym (ap (λ t. t d) rows ∙ rw e)) (h.fits d))

  -- After the repository has committed: the cache is told, and the result returned.
  commit :
      {A : Type 0} (code : Bytes) (a : A) (l : Link) (w : World R C K V G) (r : R)
      → laws.repo.table r ≡ write (table_of sv laws w) code l
      → laws.repo.Inv r
      → Post
          ((invalidate sv code >> ret a) (record w { repo = r }))
          (λ a' w'. (a' ≡ a) × Rewrites code l w w')
          (λ _ _. ⊥)
  commit code a l w r rows inv =
      Post-bind _ _ (invalidate sv code) (λ _. ret a) (record w { repo = r })
        (Post-mono _ _ _ _ (invalidate sv code (record w { repo = r }))
          (invalidate_lem code (record w { repo = r }))
          (λ _ w' (p, off, g).
            (refl, (ap laws.repo.table p ∙ rows, subst laws.repo.Inv (sym p) inv, off, g)))
          (λ _ _ b. absurd b))

  pub set_status_lem :
      (owner : Int64) (code : Bytes) (st : Status) (w : World R C K V G)
      → IsCoherent sv laws w
      → Post
          (set_status sv owner code st w)
          (λ l w'.
            (status_valid st ≡ true)
            × Holds (table_of sv laws w) code (λ m. Owns owner m × (l ≡ record m { status = st }))
            × Rewrites code l w w')
          (λ e w'.
            (((e ≡ invalid_status) × (status_valid st ≡ false))
              ⊎ Misses link_not_found e (Holds (table_of sv laws w) code (Owns owner)))
            × Settled sv laws w w')
  unfolding set_status
  set_status_lem owner code st w h = elim (Bool-cases (status_valid st)) [
    | inr bad ↦
        Post-by _ _ (set_status sv owner code st w) (throw invalid_status w) (ground arith)
          (inl (refl, bad), (refl, h))
    | inl good ↦
        Post-by _ _ (set_status sv owner code st w)
          ((on_repo (sv.links.update_status code owner st) >>= λ l. invalidate sv code >> ret l) w)
          (ground arith)
          (Post-bind _ _ (on_repo (sv.links.update_status code owner st))
            (λ l. invalidate sv code >> ret l) w
            (Post-on_repo _ _ (sv.links.update_status code owner st) w (
              Post-mono _ _ _ _ (sv.links.update_status code owner st w.repo)
                (laws.repo.update_status_lem code owner st w.repo h.inv)
                (λ l r (was, rows, inv).
                  Post-mono _ _ _ _ ((invalidate sv code >> ret l) (record w { repo = r }))
                    (commit code l l w r rows inv)
                    (λ l' w' (same, changed). (
                      good,
                      subst
                          (λ x.
                            Holds (table_of sv laws w) code
                              (λ m. Owns owner m × (x ≡ record m { status = st })))
                          (sym same) was,
                      subst (λ x. Rewrites code x w w') (sym same) changed,
                    ))
                    (λ _ _ b. absurd b))
                (λ e r (misses, same, inv).
                  let stays = reread sv laws w r h inv same in
                  (inr misses, (stays.0.same_links, stays.1))))))
  ]

  pub delete_lem :
      (owner : Int64) (code : Bytes) (w : World R C K V G)
      → IsCoherent sv laws w
      → Post
          (delete sv owner code w)
          (λ _ w'.
            (t : Time) × Holds
              (table_of sv laws w)
              code
              (λ m. Owns owner m × Rewrites code (record m { deleted_at = some t }) w w'))
          (λ e w'.
            Misses link_not_found e (Holds (table_of sv laws w) code (Owns owner))
            × Settled sv laws w w')
  unfolding delete
  delete_lem owner code w h =
      Post-bind _ _ (on_repo (sv.links.soft_delete code owner)) (λ _. invalidate sv code) w
        (Post-on_repo _ _ (sv.links.soft_delete code owner) w (
          Post-mono _ _ _ _ (sv.links.soft_delete code owner w.repo)
            (laws.repo.soft_delete_lem code owner w.repo h.inv)
            (λ _ r (t, (m, at, (o, rows)), inv).
              Post-mono _ _ _ _ (invalidate sv code (record w { repo = r }))
                (invalidate_lem code (record w { repo = r }))
                (λ _ w' (p, off, g). (
                  t,
                  (
                    m,
                    at,
                    (o, (ap laws.repo.table p ∙ rows, subst laws.repo.Inv (sym p) inv, off, g)),
                  ),
                ))
                (λ _ _ b. absurd b))
            (λ e r (misses, same, inv).
              let stays = reread sv laws w r h inv same in
              (misses, (stays.0.same_links, stays.1)))))

  -- What succeeds has dropped the cache's entry, if the cache does the delete.
  pub set_status-Drops :
      (owner : Int64) (code : Bytes) (st : Status) (w : World R C K V G)
      → Drops code w
      → Post
          (set_status sv owner code st w)
          (λ _ w'. entry_of sv laws w' code ≡ absent)
          (λ _ _. Unit {0})
  unfolding set_status
  set_status-Drops owner code st w drops = elim (Bool-cases (status_valid st)) [
    | inr bad ↦
        Post-by _ _ (set_status sv owner code st w) (throw invalid_status w) (ground arith) tt
    | inl good ↦
        Post-by _ _ (set_status sv owner code st w)
          ((on_repo (sv.links.update_status code owner st) >>= λ l. invalidate sv code >> ret l) w)
          (ground arith)
          (Post-bind _ _ (on_repo (sv.links.update_status code owner st))
            (λ l. invalidate sv code >> ret l) w
            (Post-on_repo _ _ (sv.links.update_status code owner st) w (
              Post-any (sv.links.update_status code owner st w.repo) (λ l r.
                Post-mono _ _ _ _ ((invalidate sv code >> ret l) (record w { repo = r }))
                  (commit-Drops code l (record w { repo = r }) drops) (λ _ _ gone. gone)
                  (λ _ _ b. absurd b)))))
  ]

  pub delete-Drops :
      (owner : Int64) (code : Bytes) (w : World R C K V G)
      → Drops code w
      → Post (delete sv owner code w) (λ _ w'. entry_of sv laws w' code ≡ absent) (λ _ _. Unit {0})
  unfolding delete
  delete-Drops owner code w drops =
      Post-bind _ _ (on_repo (sv.links.soft_delete code owner)) (λ _. invalidate sv code) w
        (Post-on_repo _ _ (sv.links.soft_delete code owner) w (
          Post-any (sv.links.soft_delete code owner w.repo) (λ _ r.
            Post-mono _ _ _ _ (invalidate sv code (record w { repo = r }))
              (invalidate-Drops code (record w { repo = r }) drops) (λ _ _ gone. gone)
              (λ _ _ b. absurd b))))
