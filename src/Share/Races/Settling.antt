-- ===== src/Share/Races/Settling.antt =====
-- service.go and link_cache.go: after the second delete no request finds the old link.
use youpass_share_service.Base.{
  Bool-cases, Bytes, Option, bytes_eq, eq_of_bytes_eq, eqb, inl, inr, none, refl, same_refl, some,
  subst, sym, update, ℕ, ◌∙◌, ◌≡◌, ◌≢◌, ◌⊎◌, nat_eq, bytes_eq_instance,
}
use youpass_share_service.Domain.Error.{Error, link_not_found}
use youpass_share_service.Domain.Link.{Link}
use youpass_share_service.Outcome.{Outcome, Post, Post-ret, Post-throw, final, ret, throw}
use youpass_share_service.Share.Ports.{LinkCache, LinkRepository}
use youpass_share_service.Share.Contract.{
  CacheLaws, Entry, IsFault, RepositoryLaws, Table, absent, missing, present, put,
}
use youpass_share_service.Share.Coherence.{Fits}
use youpass_share_service.Share.Races.{
  Race, Reach, Reader, Step, committed, deleted, failed, fill, finished, first_delete, found, here,
  hit, holding, known_missing, later, looking, miss, missed, not_found, quiet, second_delete,
  second_failed, set_status, soft_delete, write_back,
}

quiet≢finished : quiet ≢ finished
quiet≢finished e = cc

committed≢finished : committed ≢ finished
committed≢finished e = cc

deleted≢finished : deleted ≢ finished
deleted≢finished e = cc

held_is : (l : Link) (o : Option Link) → holding (some l) ≡ holding o → o ≡ some l
held_is l o e = cc

held_none : (o : Option Link) → holding none ≡ holding o → o ≡ none
held_none o e = cc

module _ {R C : Type 0} {links : LinkRepository R} {cache : LinkCache C}
    (repo : RepositoryLaws links) (cached : CacheLaws cache) (c : Bytes) where
  -- The row of the code, and that no reader holds anything else.
  abbrev pub row_of : Race R C → Option Link
  row_of w = repo.table w.rows c

  abbrev pub AllFresh : Race R C → Type 0
  AllFresh w = (i : ℕ) (o : Option Link) → w.readers i ≡ holding o → o ≡ row_of w

  record IsSettled (w : Race R C) : Type 0 where
    over : w.writer ≡ finished
    inv : repo.Inv w.rows
    fits : Fits (cached.entry w.cached c) (row_of w)
    fresh : AllFresh w

  -- Reader i goes on to r.
  fresh_update :
      (f : ℕ → Reader) (i : ℕ) (r : Reader) (row : Option Link)
      → ((j : ℕ) (o : Option Link) → f j ≡ holding o → o ≡ row)
      → ((o : Option Link) → r ≡ holding o → o ≡ row)
      → (j : ℕ) (o : Option Link) → update f i r j ≡ holding o
      → o ≡ row
  fresh_update f i r row old new j o e = elim (Bool-cases (eqb i j)) [
    | inl q ↦ new o (rw q at e)
    | inr q ↦ old j o (rw q at e)
  ]

  put-Fits :
      (d : Bytes) (x : Entry) (t t' : Bytes → Entry) (row : Option Link)
      → Fits (t c) row
      → (d ≡ c → Fits x row)
      → (t' ≡ t) ⊎ (t' ≡ put t d x)
      → Fits (t' c) row
  put-Fits d x t t' row old new (inl e) = rw e old
  put-Fits d x t t' row old new (inr e) = rw e (elim (Bool-cases (bytes_eq d c)) [
    | inl q ↦ rw q (new (eq_of_bytes_eq d c q))
    | inr q ↦ rw q old
  ])

  -- A reader's write back of the row as it is.
  fill-Fits :
      (o : Option Link) (s : C) (row : Option Link)
      → o ≡ row
      → Fits (cached.entry s c) row
      → Fits (cached.entry (fill cache c o s) c) row
  unfolding fill
  fill-Fits none s row e old =
      put-Fits c missing (cached.entry s) _ row old (λ _. sym e)
        (done (cache.set_not_found c s) (cached.set_not_found_lem c s))
    where
      done :
          (p : Outcome C (Unit {0}))
          → Post p
              (λ _ s'. cached.entry s' ≡ put (cached.entry s) c missing)
              (λ _ s'.
                (cached.entry s' ≡ cached.entry s)
                ⊎ (cached.entry s' ≡ put (cached.entry s) c missing))
          → (cached.entry (final p) ≡ cached.entry s)
            ⊎ (cached.entry (final p) ≡ put (cached.entry s) c missing)
      done (ret a t) h = inr h
      done (throw x t) h = h
  fill-Fits (some l) s row e old =
      let (m, agrees, h) = cached.set_lem l s in
      put-Fits l.code (present m) (cached.entry s) _ row old (λ _. (l, sym e, agrees))
        (done m (cache.set l s) h)
    where
      done :
          (m : Link) (p : Outcome C (Unit {0}))
          → Post p
              (λ _ s'. cached.entry s' ≡ put (cached.entry s) l.code (present m))
              (λ _ s'.
                (cached.entry s' ≡ cached.entry s)
                ⊎ (cached.entry s' ≡ put (cached.entry s) l.code (present m)))
          → (cached.entry (final p) ≡ cached.entry s)
            ⊎ (cached.entry (final p) ≡ put (cached.entry s) l.code (present m))
      done m (ret a t) h = inr h
      done m (throw x t) h = h

  still-Fits :
      (w : Race R C) (s : C)
      → cached.entry s ≡ cached.entry w.cached
      → IsSettled w
      → Fits (cached.entry s c) (row_of w)
  still-Fits w s e h = rw e h.fits

  found_row :
      (l : Link) (rows s : R)
      → repo.Inv rows
      → links.find_by_code c rows ≡ ret l s
      → (repo.table rows c ≡ some l) × (repo.table s ≡ repo.table rows) × repo.Inv s
  found_row l rows s inv e =
      Post-ret _ _ (links.find_by_code c rows) l s (repo.find_by_code_lem c rows inv) e

  unfound_row :
      (x : Error) (rows s : R)
      → repo.Inv rows
      → links.find_by_code c rows ≡ throw x s
      → (((x ≡ link_not_found) × (repo.table rows c ≡ none)) ⊎ IsFault x)
        × (repo.table s ≡ repo.table rows)
        × repo.Inv s
  unfound_row x rows s inv e =
      Post-throw _ _ (links.find_by_code c rows) x s (repo.find_by_code_lem c rows inv) e

  moved :
      (w : Race R C) (i : ℕ) (r : Reader) (s : R)
      → IsSettled w
      → repo.table s ≡ repo.table w.rows
      → repo.Inv s
      → ((o : Option Link) → r ≡ holding o → o ≡ row_of w)
      → IsSettled (record w { rows = s; readers = update w.readers i r })
  moved w i r s h same inv new = record {
    over = h.over;
    inv = inv;
    fits = subst (λ (t : Table). Fits (cached.entry w.cached c) (t c)) (sym same) h.fits;
    fresh =
        subst
          (λ (t : Table). (j : ℕ) (o : Option Link) → update w.readers i r j ≡ holding o → o ≡ t c)
          (sym same) (fresh_update w.readers i r (row_of w) h.fresh new);
  }

  Step-IsSettled : {w u : Race R C} → Step links cache c w u → IsSettled w → IsSettled u
  Step-IsSettled {w} (hit {l} {s} e) h = record {
    over = h.over;
    inv = h.inv;
    fresh = h.fresh;
    fits =
        still-Fits w s (Post-ret _ _ (cache.get c w.cached) l s (cached.get_lem c w.cached) e).1 h;
  }
  Step-IsSettled {w} (known_missing {s} e) h = record {
    over = h.over;
    inv = h.inv;
    fresh = h.fresh;
    fits =
        still-Fits w s
          (Post-throw _ _ (cache.get c w.cached) link_not_found s (cached.get_lem c w.cached) e).1
          h;
  }
  Step-IsSettled {w} (miss i {e = x} {s} r e n) h = record {
    over = h.over;
    inv = h.inv;
    fresh = fresh_update w.readers i missed (row_of w) h.fresh (λ o q. cc);
    fits =
        still-Fits w s (Post-throw _ _ (cache.get c w.cached) x s (cached.get_lem c w.cached) e).1
          h;
  }
  Step-IsSettled {w} (found i {l} {s} r e) h =
      let (at, same, inv) = found_row l w.rows s h.inv e in
      moved w i (holding (some l)) s h same inv (λ o q. held_is l o q ∙ sym at)
  Step-IsSettled {w} (not_found i {s} r e) h =
      let (why, same, inv) = unfound_row link_not_found w.rows s h.inv e in
      moved w i (holding none) s h same inv
        (λ o q. elim why [ inl p ↦ held_none o q ∙ sym p.1 | inr p ↦ absurd p ])
  Step-IsSettled {w} (failed i {e = x} {s} r e n) h =
      let (why, same, inv) = unfound_row x w.rows s h.inv e in
      moved w i looking s h same inv (λ o q. cc)
  Step-IsSettled {w} (write_back i {o} r) h = record {
    over = h.over;
    inv = h.inv;
    fresh = fresh_update w.readers i looking (row_of w) h.fresh (λ p q. cc);
    fits = fill-Fits o w.cached (row_of w) (h.fresh i o r) h.fits;
  }
  Step-IsSettled (set_status q e) h = absurd (quiet≢finished (sym q ∙ h.over))
  Step-IsSettled (soft_delete q e) h = absurd (quiet≢finished (sym q ∙ h.over))
  Step-IsSettled (first_delete q) h = absurd (committed≢finished (sym q ∙ h.over))
  Step-IsSettled (second_delete q e) h = absurd (deleted≢finished (sym q ∙ h.over))
  Step-IsSettled (second_failed q e) h = absurd (deleted≢finished (sym q ∙ h.over))

  Reach-IsSettled : {u v : Race R C} → Reach links cache c u v → IsSettled u → IsSettled v
  Reach-IsSettled here h = h
  Reach-IsSettled (later r st) h = Step-IsSettled st (Reach-IsSettled r h)

  from-IsSettled :
      (w : Race R C) (s : C)
      → repo.Inv w.rows
      → AllFresh w
      → cache.invalidate c w.cached ≡ ret tt s
      → IsSettled (record w { cached = s; writer = finished })
  from-IsSettled w s inv fresh e =
      let gone : cached.entry s ≡ put (cached.entry w.cached) c absent =
        Post-ret _ _ (cache.invalidate c w.cached) tt s (cached.invalidate_lem c w.cached) e in
      record { over = refl; inv = inv; fresh = fresh; fits = rw gone (rw (same_refl c) tt) }

  -- On a repository and a cache that keep their promises: once the second delete of an
  -- invalidation has succeeded, and if every reader that then holds an answer of the repository
  -- holds the row as it is, the cache never again has anything of the code that is not true of its
  -- row, in whatever order readers look, load and write back.
  pub second_delete_settles :
      (w : Race R C) (s : C) {u : Race R C}
      → repo.Inv w.rows
      → AllFresh w
      → cache.invalidate c w.cached ≡ ret tt s
      → Reach links cache c (record w { cached = s; writer = finished }) u
      → Fits (cached.entry u.cached c) (row_of u)
  second_delete_settles w s inv fresh e r =
      (Reach-IsSettled r (from-IsSettled w s inv fresh e)).fits
