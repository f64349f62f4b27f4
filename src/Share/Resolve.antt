-- ===== src/Share/Resolve.antt =====
-- usecase/share/resolve.go: the answer of `Resolve` in each case, while the cache is coherent.
use youpass_share_service.Base.{
  Bool-cases, Bytes, ap, arith, false, if◌then◌else◌, inl, inr, none, refl, some, subst, sym, ◌∙◌,
  ◌≡◌, ◌≢◌, ◌⊎◌,
}
use youpass_share_service.Domain.Error.{
  Error, eq_of_err_is, err_is, err_is_refl, link_gone, link_not_found, submission_not_found,
}
use youpass_share_service.Domain.Link.{
  Link, Snapshot, Time, accessible, counts_view_from, is_owned_by,
}
use youpass_share_service.Domain.Viewer.{Viewer, key}
use youpass_share_service.Domain.Code.{valid_code}
use youpass_share_service.Outcome.{
  Outcome, Outcome-cases, Post, Post-bind, Post-by, Post-mono, ret, throw, ◌>>=◌,
}
use youpass_share_service.Share.Ports.{SharedView}
use youpass_share_service.Share.Contract.{Agrees, Holds, IsFault}
use youpass_share_service.Share.Service.{Service, World, get_link, resolve, shared_view, show}
use youpass_share_service.Share.Lookup.{get_link_lem}
use youpass_share_service.Share.Coherence.{Found, IsCoherent, IsLawful, Missed, Stays, table_of}

module _ {R C K V G : Type 0} (sv : Service R C K V G) where
  -- The counters after a view by v of the link m is shown.
  abbrev pub tally : Link → Viewer → V → V
  tally m v c =
      if counts_view_from sv.unicode m v then sv.views.track m.id (key sv.sha256 v) c else c

  -- What the submissions answer for the link's resource.
  abbrev pub snapshot_of : Link → World R C K V G → Outcome K Snapshot
  snapshot_of m w = sv.content.snapshot m.resource_type m.resource_id w.submissions

  -- A call changes neither the links nor the cache.
  abbrev pub Untouched : World R C K V G → World R C K V G → Type 0
  Untouched w w' = (w'.repo ≡ w.repo) × (w'.cached ≡ w.cached)

  -- The view shows link m, which is accessible now, and the view of v is counted by the rule.
  abbrev pub Shows : Link → Viewer → World R C K V G → SharedView → World R C K V G → Type 0
  Shows m v w view w' =
      (accessible m (sv.now w.env) ≡ none)
      × ((snap : Snapshot) × (k : K) × (snapshot_of m w ≡ ret snap k)
          × (view ≡ shared_view sv m snap))
      × (w'.counters ≡ tally m v w.counters)

  -- Link m cannot be seen now, or its submission is gone, or reading the submission failed with e.
  abbrev pub Withholds : Link → World R C K V G → Error → World R C K V G → Type 0
  Withholds m w e w' =
      (((e ≡ link_gone)
          × ((accessible m (sv.now w.env) ≡ some link_gone)
              ⊎ ((accessible m (sv.now w.env) ≡ none)
                  × ((k : K) × (snapshot_of m w ≡ throw submission_not_found k)))))
        ⊎ ((accessible m (sv.now w.env) ≡ none)
            × ((k : K) × (snapshot_of m w ≡ throw e k) × (e ≢ submission_not_found))))
      × (w'.counters ≡ w.counters)

  accessible_cases :
      (m : Link) (t : Time) → (accessible m t ≡ none) ⊎ (accessible m t ≡ some link_gone)
  unfolding accessible
  accessible_cases m t = ground arith

  shown :
      (m : Link) (v : Viewer) (w : World R C K V G) (snap : Snapshot) (k : K)
      → accessible m (sv.now w.env) ≡ none
      → snapshot_of m w ≡ ret snap k
      → show sv m v w
        ≡ ret
            (shared_view sv m snap)
            (record w { submissions = k; counters = tally m v w.counters })
  unfolding show
  shown m v w snap k open' e = ground arith

  show_lem :
      (m : Link) (v : Viewer) (w : World R C K V G)
      → Post
          (show sv m v w)
          (λ view w'. Shows m v w view w' × Untouched w w')
          (λ e w'. Withholds m w e w' × Untouched w w')
  unfolding show
  show_lem m v w = elim (accessible_cases m (sv.now w.env)) [
    | inr gone ↦
        Post-by _ _ (show sv m v w) (throw link_gone w) (ground arith)
          ((inl (refl, inl gone), refl), (refl, refl))
    | inl open' ↦ elim (Outcome-cases (snapshot_of m w)) [
      | inl (snap, k, e) ↦
          Post-by _ _ (show sv m v w) _ (shown m v w snap k open' e)
            ((open', (snap, k, e, refl), refl), (refl, refl))
      | inr (x, k, e) ↦ elim (Bool-cases (err_is x submission_not_found)) [
        | inl gone ↦
            let missing = subst (λ y. snapshot_of m w ≡ throw y k) (eq_of_err_is _ _ gone) e in
            Post-by _ _ (show sv m v w) (throw link_gone (record w { submissions = k }))
              (ground arith) ((inl (refl, inr (open', (k, missing))), refl), (refl, refl))
        | inr other ↦
            let differs : x ≢ submission_not_found =
              λ p. ground (arith, other, p, err_is_refl submission_not_found) in
            Post-by _ _ (show sv m v w) (throw x (record w { submissions = k })) (ground arith)
              ((inr (open', (k, e, differs)), refl), (refl, refl))
      ]
    ]
  ]

  -- The counter of the views has no part in the answer.
  Shows-Agrees :
      (l m : Link) (v : Viewer) (w : World R C K V G) (view : SharedView) (w' : World R C K V G)
      → Agrees l m
      → Shows l v w view w'
      → Shows m v w view w'
  unfolding accessible shared_view counts_view_from is_owned_by
  Shows-Agrees l m v w view w' (n, e) s = subst (λ x. Shows x v w view w') e s

  Withholds-Agrees :
      (l m : Link) (w : World R C K V G) (e : Error) (w' : World R C K V G)
      → Agrees l m
      → Withholds l w e w'
      → Withholds m w e w'
  unfolding accessible
  Withholds-Agrees l m w x w' (n, e) s = subst (λ y. Withholds y w x w') e s

  -- Nor has anything that the look-up of the link may change.
  as_before {ℓ} :
      (P : World R C K V G → Type ℓ) (w w₁ : World R C K V G)
      → w₁.submissions ≡ w.submissions
      → w₁.counters ≡ w.counters
      → w₁.env ≡ w.env
      → P w₁
      → P (record w₁ { submissions = w.submissions; counters = w.counters; env = w.env })
  as_before P w w₁ p q r h =
      subst (λ g. P (record w₁ { submissions = w.submissions; counters = w.counters; env = g })) r
        (subst (λ c. P (record w₁ { submissions = w.submissions; counters = c })) q
          (subst (λ s. P (record w₁ { submissions = s })) p h))

  module _ (laws : IsLawful sv) where
    IsCoherent-after :
        (w₁ w' : World R C K V G) → IsCoherent sv laws w₁ → Untouched w₁ w' → IsCoherent sv laws w'
    IsCoherent-after w₁ w' h (r, c) = record {
      inv = subst laws.repo.Inv (sym r) h.inv;
      fits = λ d. rw (r, c) (h.fits d);
    }

    -- Link m is withheld, or there is no such link, or something failed.
    abbrev pub Refuses : Bytes → World R C K V G → Error → World R C K V G → Type 0
    Refuses code w e w' =
        ((e ≡ link_not_found) × ((valid_code code ≡ false) ⊎ (table_of sv laws w code ≡ none)))
        ⊎ (Holds (table_of sv laws w) code (λ m. Withholds m w e w') ⊎ IsFault e)

    abbrev pub Settled : World R C K V G → World R C K V G → Type 0
    Settled w w' = (table_of sv laws w' ≡ table_of sv laws w) × IsCoherent sv laws w'

    Missed-Refuses :
        (code : Bytes) (w : World R C K V G) (e : Error) (w' : World R C K V G)
        → Missed sv laws code e w
        → Refuses code w e w'
    Missed-Refuses code w e w' (inl (p, at)) = inl (p, inr at)
    Missed-Refuses code w e w' (inr fault) = inr (inr fault)

    show-Found :
        (code : Bytes) (v : Viewer) (w w₁ : World R C K V G) (l : Link)
        → Found sv laws code l w
        → Stays sv laws w w₁
        → Post
            (show sv l v w₁)
            (λ view w'. Holds (table_of sv laws w) code (λ m. Shows m v w view w') × Settled w w')
            (λ e w'. Refuses code w e w' × Settled w w')
    show-Found code v w w₁ l (m, at, agrees) (kept, co) =
        let settled = λ (w' : World R C K V G) (u : Untouched w₁ w').
          let same : Settled w w' =
            (ap laws.repo.table u.0 ∙ kept.same_links, IsCoherent-after w₁ w' co u) in
          same in
        Post-mono _ _ _ _ (show sv l v w₁) (show_lem l v w₁)
          (λ view w' (s, u). (
            (
              m,
              at,
              as_before (λ x. Shows m v x view w') w w₁ kept.same_content kept.same_counters
                  kept.same_env (Shows-Agrees l m v w₁ view w' agrees s),
            ),
            settled w' u,
          ))
          (λ e w' (s, u). (
            inr (
                inl (
                  m,
                  at,
                  as_before (λ x. Withholds m x e w') w w₁ kept.same_content kept.same_counters
                      kept.same_env (Withholds-Agrees l m w₁ e w' agrees s),
                )),
            settled w' u,
          ))

    pub resolve_answers :
        (code : Bytes) (v : Viewer) (w : World R C K V G)
        → IsCoherent sv laws w
        → Post
            (resolve sv code v w)
            (λ view w'. Holds (table_of sv laws w) code (λ m. Shows m v w view w') × Settled w w')
            (λ e w'. Refuses code w e w' × Settled w w')
    unfolding resolve
    resolve_answers code v w h = elim (Bool-cases (valid_code code)) [
      | inr bad ↦
          Post-by _ _ (resolve sv code v w) (throw link_not_found w) (ground arith)
            (inl (refl, inl bad), (refl, h))
      | inl good ↦
          Post-by _ _ (resolve sv code v w) ((get_link sv code >>= λ l. show sv l v) w)
            (ground arith)
            (Post-bind _ _ (get_link sv code) (λ link. show sv link v) w
              (Post-mono _ _ _ _ (get_link sv code w) (get_link_lem sv laws code w h)
                (λ l w₁ (found, stays). show-Found code v w w₁ l found stays)
                (λ e w₁ (missed, stays).
                  (Missed-Refuses code w e w₁ missed, (stays.0.same_links, stays.1)))))
    ]
