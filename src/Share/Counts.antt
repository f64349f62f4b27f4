-- ===== src/Share/Counts.antt =====
-- usecase/share/manage.go: what `Stats` adds up, and for whom.
use youpass_share_service.Base.{Bytes, Int64, add64, ap, inl, inr, refl, some, sym, ◌∙◌, ◌≡◌, ◌⊎◌}
use youpass_share_service.Domain.Error.{Error, link_not_found}
use youpass_share_service.Domain.Link.{Link}
use youpass_share_service.Outcome.{Post, Post-bind, Post-mono, Post-self, ret, throw, ◌>>=◌}
use youpass_share_service.Share.Ports.{Stats}
use youpass_share_service.Share.Contract.{Holds, Misses, Owns}
use youpass_share_service.Share.Service.{
  Post-on_repo, Post-on_views, Service, World, on_repo, on_views, stats,
}
use youpass_share_service.Share.Coherence.{IsLawful, table_of}

module _ {R C K V G : Type 0} (sv : Service R C K V G) (laws : IsLawful sv) where
  -- The views in the row of the link and those that wait in the tracker.
  abbrev pub Counted : Link → World R C K V G → Stats → Type 0
  Counted m w st =
      (p : Int64) × (u : Int64) × (c : V) × (sv.views.pending m.id w.counters ≡ ret (p, u) c)
      × (st.total_views ≡ add64 m.view_count p)
      × (st.unique_today ≡ u)

  -- The owner has no such link, or a port failed.
  abbrev pub Uncounted : Int64 → Bytes → World R C K V G → Error → Type 0
  Uncounted owner code w e =
      Misses link_not_found e (Holds (table_of sv laws w) code (Owns owner))
      ⊎ Holds (table_of sv laws w) code
          (λ m. (c : V) × (sv.views.pending m.id w.counters ≡ throw e c))

  abbrev pub Unchanged : World R C K V G → World R C K V G → Type 0
  Unchanged w w' =
      (table_of sv laws w' ≡ table_of sv laws w)
      × (w'.cached ≡ w.cached)
      × (w'.submissions ≡ w.submissions)

  added_up :
      (owner : Int64) (code : Bytes) (m : Link) (w w₁ : World R C K V G)
      → table_of sv laws w code ≡ some m
      → Owns owner m
      → w₁.counters ≡ w.counters
      → Unchanged w w₁
      → Post
          ((on_views (sv.views.pending m.id) >>= λ (waiting, unique).
              ret (record { total_views = add64 m.view_count waiting; unique_today = unique }))
            w₁)
          (λ st w'.
            Holds (table_of sv laws w) code (λ m. Owns owner m × Counted m w st) × Unchanged w w')
          (λ e w'. Uncounted owner code w e × Unchanged w w')
  added_up owner code m w w₁ at owns same still =
      Post-bind _ _ (on_views (sv.views.pending m.id)) _ w₁ (
        Post-on_views _ _ (sv.views.pending m.id) w₁ (
          Post-mono _ _ _ _ (sv.views.pending m.id w₁.counters)
            (Post-self (sv.views.pending m.id w₁.counters))
            (λ (p, u) c e. (
              (m, at, (owns, (p, u, c, ap (sv.views.pending m.id) (sym same) ∙ e, refl, refl))),
              still,
            ))
            (λ e c failed.
              (inr (m, at, (c, ap (sv.views.pending m.id) (sym same) ∙ failed)), still))))

  -- On lawful ports with a sound repository: `Stats` succeeds only for the owner of a link that is
  -- not deleted, with the views in its row plus those that wait in the tracker, modulo 2 ^ 64, and
  -- the tracker's unique viewers. It fails with `ErrLinkNotFound` where the caller owns no live
  -- link of the code, with a fault, or as the tracker does. Rows, cache and submissions stay as
  -- they are.
  pub stats_lem :
      (owner : Int64) (code : Bytes) (w : World R C K V G)
      → laws.repo.Inv w.repo
      → Post
          (stats sv owner code w)
          (λ st w'.
            Holds (table_of sv laws w) code (λ m. Owns owner m × Counted m w st) × Unchanged w w')
          (λ e w'. Uncounted owner code w e × Unchanged w w')
  unfolding stats
  stats_lem owner code w inv = Post-bind _ _ (on_repo (sv.links.find_owned code owner)) _ w (
      Post-on_repo _ _ (sv.links.find_owned code owner) w (
        Post-mono _ _ _ _ (sv.links.find_owned code owner w.repo)
          (laws.repo.find_owned_lem code owner w.repo inv)
          (λ m r (at, owns, same, _).
            added_up owner code m w (record w { repo = r }) at owns refl (same, refl, refl))
          (λ e r (misses, same, _). (inl misses, (same, refl, refl)))))
