-- ===== src/Share/Lookup.antt =====
-- usecase/share/resolve.go: what `getLink` finds, while the cache agrees with the repository.
use youpass_share_service.Base.{
  Bool-cases, Bytes, ap, if◌then◌else◌, inl, inr, none, refl, some, subst, sym, ◌∙◌, ◌≡◌, ◌⊎◌,
}
use youpass_share_service.Domain.Error.{Error, cache_miss, eq_of_err_is, err_is, link_not_found}
use youpass_share_service.Domain.Link.{Link}
use youpass_share_service.Outcome.{
  Post, Post-bind, Post-handle, Post-mono, ignore, ret, throw, ◌>>◌,
}
use youpass_share_service.Share.Contract.{IsFault, absent, missing, present}
use youpass_share_service.Share.Service.{
  Post-on_cache, Post-on_repo, Service, World, get_link, load_link, on_cache, on_repo,
}
use youpass_share_service.Share.Coherence.{
  Fits, Found, IsCoherent, IsLawful, Missed, Stays, Stays-trans, entry_of, reread, store, table_of,
}

module _ {R C K V G : Type 0} (sv : Service R C K V G) (laws : IsLawful sv) where
  store_found :
      (w : World R C K V G) (code : Bytes) (l : Link)
      → IsCoherent sv laws w
      → table_of sv laws w code ≡ some l
      → Post (ignore (on_cache (sv.cache.set l)) w) (λ _ w'. Stays sv laws w w') (λ _ _. ⊥)
  store_found w code l h at =
      let key : l.code ≡ code = (laws.repo.sound w.repo h.inv).keyed code l at in
      let (m, agrees, post) = laws.cache.set_lem l w.cached in
      let at' : table_of sv laws w l.code ≡ some l =
        subst (λ c. table_of sv laws w c ≡ some l) (sym key) at in
      store sv laws (sv.cache.set l) w l.code (present m) h (l, at', agrees) post

  store_missing :
      (w : World R C K V G) (code : Bytes)
      → IsCoherent sv laws w
      → table_of sv laws w code ≡ none
      → Post
          (ignore (on_cache (sv.cache.set_not_found code)) w)
          (λ _ w'. Stays sv laws w w')
          (λ _ _. ⊥)
  store_missing w code h at =
      store sv laws (sv.cache.set_not_found code) w code missing h at
        (laws.cache.set_not_found_lem code w.cached)

  pub Missed-none :
      (code : Bytes) (w : World R C K V G) (e : Error)
      → Missed sv laws code e w
      → e ≡ link_not_found
      → table_of sv laws w code ≡ none
  Missed-none code w e (inl (_, at)) p = at
  Missed-none code w e (inr fault) p = absurd (subst IsFault p fault)

  Missed-same :
      (code : Bytes) (e : Error) (w w₁ : World R C K V G)
      → table_of sv laws w₁ code ≡ table_of sv laws w code
      → Missed sv laws code e w₁
      → Missed sv laws code e w
  Missed-same code e w w₁ same (inl (p, at)) = inl (p, sym same ∙ at)
  Missed-same code e w w₁ same (inr fault) = inr fault

  load_failed :
      (code : Bytes) (w : World R C K V G) (e : Error) (w₁ : World R C K V G)
      → Stays sv laws w w₁
      → Missed sv laws code e w
      → Post
          ((if err_is e link_not_found
              then (ignore (on_cache (sv.cache.set_not_found code)) >> throw e)
              else throw e)
            w₁)
          (λ l w'. (table_of sv laws w code ≡ some l) × Stays sv laws w w')
          (λ e' w'. Missed sv laws code e' w × Stays sv laws w w')
  load_failed code w e w₁ s m = elim (Bool-cases (err_is e link_not_found)) [
    | inl missed ↦
        let at = Missed-none code w e m (eq_of_err_is e link_not_found missed) in
        let at₁ = ap (λ t. t code) s.0.same_links ∙ at in
        let marked = ignore (on_cache (sv.cache.set_not_found code)) in
        rw missed (
          Post-bind _ _ marked (λ _. throw e) w₁
            (Post-mono _ _ _ _ (marked w₁) (store_missing w₁ code s.1 at₁)
              (λ _ w' s'. (m, Stays-trans sv laws s.0 s')) (λ _ _ b. absurd b)))
    | inr other ↦ rw other (m, s)
  ]

  load_done :
      (code : Bytes) (w : World R C K V G) (l : Link) (w₁ : World R C K V G)
      → Stays sv laws w w₁
      → table_of sv laws w code ≡ some l
      → Post
          ((ignore (on_cache (sv.cache.set l)) >> ret l) w₁)
          (λ l' w'. (table_of sv laws w code ≡ some l') × Stays sv laws w w')
          (λ e' w'. Missed sv laws code e' w × Stays sv laws w w')
  load_done code w l w₁ s at =
      let stored = ignore (on_cache (sv.cache.set l)) in
      Post-bind _ _ stored (λ _. ret l) w₁
        (Post-mono _ _ _ _ (stored w₁)
          (store_found w₁ code l s.1 (ap (λ t. t code) s.0.same_links ∙ at))
          (λ _ w' s'. (at, Stays-trans sv laws s.0 s')) (λ _ _ b. absurd b))

  pub load_link_lem :
      (code : Bytes) (w : World R C K V G)
      → IsCoherent sv laws w
      → Post
          (load_link sv code w)
          (λ l w'. (table_of sv laws w code ≡ some l) × Stays sv laws w w')
          (λ e w'. Missed sv laws code e w × Stays sv laws w w')
  unfolding load_link
  load_link_lem code w h = Post-handle _ _ (on_repo (sv.links.find_by_code code)) _ _ w (
      Post-on_repo _ _ (sv.links.find_by_code code) w (
        Post-mono _ _ _ _ (sv.links.find_by_code code w.repo)
          (laws.repo.find_by_code_lem code w.repo h.inv)
          (λ l r (at, same, inv).
            load_done code w l (record w { repo = r }) (reread sv laws w r h inv same) at)
          (λ e r (m, same, inv).
            load_failed code w e (record w { repo = r }) (reread sv laws w r h inv same) m)))

  -- A read of the cache, which leaves its entries alone.
  looked_up :
      (w : World R C K V G) (s : C)
      → IsCoherent sv laws w
      → laws.cache.entry s ≡ entry_of sv laws w
      → Stays sv laws w (record w { cached = s })
  looked_up w s h same = (
    record { same_links = refl; same_content = refl; same_counters = refl; same_env = refl },
    record {
      inv = h.inv;
      fits = λ c. subst (λ t. Fits (t c) (table_of sv laws w c)) (sym same) (h.fits c);
    },
  )

  negative_hit :
      (code : Bytes) (w : World R C K V G) (e : Error)
      → IsCoherent sv laws w
      → (((e ≡ link_not_found) × (entry_of sv laws w code ≡ missing))
          ⊎ (((e ≡ cache_miss) × (entry_of sv laws w code ≡ absent)) ⊎ IsFault e))
      → e ≡ link_not_found
      → Missed sv laws code e w
  negative_hit code w e h (inl (p, m)) q =
      inl (p, subst (λ x. Fits x (table_of sv laws w code)) m (h.fits code))
  negative_hit code w e h (inr (inl (p, m))) q = absurd (cc)
  negative_hit code w e h (inr (inr fault)) q = absurd (subst IsFault q fault)

  after_miss :
      (code : Bytes) (w : World R C K V G) (e : Error) (w₁ : World R C K V G)
      → IsCoherent sv laws w
      → Stays sv laws w w₁
      → (((e ≡ link_not_found) × (entry_of sv laws w code ≡ missing))
          ⊎ (((e ≡ cache_miss) × (entry_of sv laws w code ≡ absent)) ⊎ IsFault e))
      → Post
          ((if err_is e link_not_found then throw e else sv.flight code (load_link sv code)) w₁)
          (λ l w'. Found sv laws code l w × Stays sv laws w w')
          (λ e' w'. Missed sv laws code e' w × Stays sv laws w w')
  after_miss code w e w₁ h s m = elim (Bool-cases (err_is e link_not_found)) [
    | inl hit ↦ rw hit (negative_hit code w e h m (eq_of_err_is e link_not_found hit), s)
    | inr miss ↦
        let same = ap (λ t. t code) s.0.same_links in
        rw (miss, laws.alone)
          (Post-mono _ _ _ _ (load_link sv code w₁) (load_link_lem code w₁ s.1)
            (λ l w' (at, s').
              ((l, sym same ∙ at, (l.view_count, refl)), Stays-trans sv laws s.0 s'))
            (λ e' w' (m', s'). (Missed-same code e' w w₁ same m', Stays-trans sv laws s.0 s')))
  ]

  -- On lawful ports and from a coherent state, `getLink` returns the repository's link of the
  -- code, but for the counter of its views; it fails with `ErrLinkNotFound` only if the repository
  -- has none, or with a fault. Rows, submissions, counters and clock stay as they are, and the
  -- state stays coherent.
  pub get_link_lem :
      (code : Bytes) (w : World R C K V G)
      → IsCoherent sv laws w
      → Post
          (get_link sv code w)
          (λ l w'. Found sv laws code l w × Stays sv laws w w')
          (λ e w'. Missed sv laws code e w × Stays sv laws w w')
  unfolding get_link
  get_link_lem code w h = Post-handle _ _ (on_cache (sv.cache.get code)) _ _ w (
      Post-on_cache _ _ (sv.cache.get code) w (
        Post-mono _ _ _ _ (sv.cache.get code w.cached) (laws.cache.get_lem code w.cached)
          (λ l s (at, same).
            (subst (λ x. Fits x (table_of sv laws w code)) at (h.fits code), looked_up w s h same))
          (λ e s (m, same).
            after_miss code w e (record w { cached = s }) h (looked_up w s h same) m)))
