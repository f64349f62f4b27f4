-- ===== src/Share/Revoke.antt =====
-- usecase/share/manage.go with resolve.go: a link that is disabled or deleted is gone at once.
use youpass_share_service.Base.{
  Bytes, Int64, Option, ap, arith, bytes_eq, bytes_eq_refl, eq_of_some-eq, false, inl, inr, none,
  none≢some, some, sym, ◌∙◌, ◌≡◌, ◌≢◌, ◌⊎◌,
}
use youpass_share_service.Domain.Error.{Error, invalid_status, link_gone, link_not_found}
use youpass_share_service.Domain.Link.{Link, Status, Time, accessible, status_disabled}
use youpass_share_service.Domain.Viewer.{Viewer}
use youpass_share_service.Domain.Code.{valid_code}
use youpass_share_service.Outcome.{Post, Post-mono, ret}
use youpass_share_service.Share.Ports.{}
use youpass_share_service.Share.Contract.{IsFault, Misses, absent}
use youpass_share_service.Share.Service.{Service, World, delete, resolve, set_status}
use youpass_share_service.Share.Coherence.{IsCoherent, IsLawful, entry_of, table_of}
use youpass_share_service.Share.Resolve.{Refuses, Withholds, resolve_answers}
use youpass_share_service.Share.Manage.{
  Drops, Rewrites, Rewrites-IsCoherent, delete-Drops, delete_lem, set_status-Drops, set_status_lem,
}

-- `ErrLinkGone` (410), or the code is malformed, or a port failed.
abbrev pub IsGone : Bytes → Error → Type 0
IsGone code e = (e ≡ link_gone) ⊎ (((e ≡ link_not_found) × (valid_code code ≡ false)) ⊎ IsFault e)

-- Disabled, or deleted.
abbrev pub IsRevoked : Link → Type 0
IsRevoked l = (l.status ≡ status_disabled) ⊎ (l.deleted_at ≢ none)

revoked_accessible : (l : Link) (t : Time) → IsRevoked l → accessible l t ≡ some link_gone
unfolding accessible bytes_eq
revoked_accessible l t (inl off) = rw off (ground arith)
revoked_accessible l t (inr gone) = ground arith

module _ {R C K V G : Type 0} (sv : Service R C K V G) (laws : IsLawful sv) where
  closed :
      (m l : Link) (t : Time) (o : Option Link)
      → o ≡ some l
      → o ≡ some m
      → accessible l t ≡ some link_gone
      → accessible m t ≡ none
      → ⊥
  closed m l t o p q gone open' = cc (eq_of_some-eq (sym p ∙ q))

  withheld_gone :
      (code : Bytes) (w : World R C K V G) (l m : Link) (e : Error) (w' : World R C K V G)
      → table_of sv laws w code ≡ some l
      → table_of sv laws w code ≡ some m
      → accessible l (sv.now w.env) ≡ some link_gone
      → Withholds sv m w e w'
      → e ≡ link_gone
  withheld_gone code w l m e w' p q gone (inl (same, _), _) = same
  withheld_gone code w l m e w' p q gone (inr (open', _), _) =
      absurd (closed m l (sv.now w.env) _ p q gone open')

  refused-IsGone :
      (code : Bytes) (w : World R C K V G) (l : Link) (e : Error) (w' : World R C K V G)
      → table_of sv laws w code ≡ some l
      → accessible l (sv.now w.env) ≡ some link_gone
      → Refuses sv laws code w e w'
      → IsGone code e
  refused-IsGone code w l e w' at gone (inl (p, inl bad)) = inr (inl (p, bad))
  refused-IsGone code w l e w' at gone (inl (p, inr nothing)) =
      absurd (none≢some (sym nothing ∙ at))
  refused-IsGone code w l e w' at gone (inr (inl (m, at', held))) =
      inl (withheld_gone code w l m e w' at at' gone held)
  refused-IsGone code w l e w' at gone (inr (inr fault)) = inr (inr fault)

  -- On lawful ports and from a coherent state, `Resolve` shows a link that is disabled or deleted
  -- to nobody: it answers `ErrLinkGone`, or `ErrLinkNotFound` for a malformed code, or a fault.
  pub resolve_revoked :
      (code : Bytes) (v : Viewer) (w : World R C K V G) (l : Link)
      → IsCoherent sv laws w
      → table_of sv laws w code ≡ some l
      → IsRevoked l
      → Post (resolve sv code v w) (λ _ _. ⊥) (λ e _. IsGone code e)
  resolve_revoked code v w l h at off =
      let gone = revoked_accessible l (sv.now w.env) off in
      Post-mono _ _ _ _ (resolve sv code v w) (resolve_answers sv laws code v w h)
        (λ view w' ((m, at', (open', _, _)), _). closed m l (sv.now w.env) _ at at' gone open')
        (λ e w' (refuses, _). refused-IsGone code w l e w' at gone refuses)

  row_now :
      (code : Bytes) (l : Link) (w w₁ : World R C K V G)
      → Rewrites sv laws code l w w₁
      → table_of sv laws w₁ code ≡ some l
  row_now code l w w₁ (rows, _, _, _) = ap (λ t. t code) rows ∙ rw (bytes_eq_refl code)

  -- On lawful ports and from a coherent state, if the cache does the delete of an `Invalidate` of
  -- the code that finds it as it is before the call: after `SetStatus` has disabled a link,
  -- `Resolve` shows the link to no viewer; it answers `ErrLinkGone`, or `ErrLinkNotFound` for a
  -- malformed code, or a fault.
  pub disable_revokes :
      (owner : Int64) (code : Bytes) (v : Viewer) (w w₁ : World R C K V G) (l : Link)
      → IsCoherent sv laws w
      → set_status sv owner code status_disabled w ≡ ret l w₁
      → Drops sv laws code w
      → Post (resolve sv code v w₁) (λ _ _. ⊥) (λ e _. IsGone code e)
  disable_revokes owner code v w w₁ l h done drops =
      let gone = rw (done, Post) at (set_status-Drops sv laws owner code status_disabled w drops) in
      let (_, (m, _, (_, was)), changed) =
        rw (done, Post) at (set_status_lem sv laws owner code status_disabled w h) in
      resolve_revoked code v w₁ l (Rewrites-IsCoherent sv laws code l w w₁ h changed gone)
        (row_now code l w w₁ changed) (inl (ap (λ x. x.status) was))

  -- On lawful ports and from a coherent state, if the cache does the delete of an `Invalidate` of
  -- the code that finds it as it is before the call: after `Delete` has succeeded, `Resolve` shows
  -- the link to no viewer; it answers `ErrLinkGone`, or `ErrLinkNotFound` for a malformed code, or
  -- a fault.
  pub delete_revokes :
      (owner : Int64) (code : Bytes) (v : Viewer) (w w₁ : World R C K V G)
      → IsCoherent sv laws w
      → delete sv owner code w ≡ ret tt w₁
      → Drops sv laws code w
      → Post (resolve sv code v w₁) (λ _ _. ⊥) (λ e _. IsGone code e)
  delete_revokes owner code v w w₁ h done drops =
      let gone = rw (done, Post) at (delete-Drops sv laws owner code w drops) in
      let (t, (m, _, (_, changed))) = rw (done, Post) at (delete_lem sv laws owner code w h) in
      let l = record m { deleted_at = some t } in
      resolve_revoked code v w₁ l (Rewrites-IsCoherent sv laws code l w w₁ h changed gone)
        (row_now code l w w₁ changed) (inr (λ e. none≢some (sym e)))

  -- On lawful ports and from a coherent state: after `Delete` has succeeded, and if the cache has
  -- no entry of the code any more, no `SetStatus` on the code by anyone succeeds. It fails for an
  -- invalid status, as not found or with a fault, and changes no row.
  pub delete_final :
      (owner other : Int64) (code : Bytes) (st : Status) (w w₁ : World R C K V G)
      → IsCoherent sv laws w
      → delete sv owner code w ≡ ret tt w₁
      → entry_of sv laws w₁ code ≡ absent
      → Post
          (set_status sv other code st w₁)
          (λ _ _. ⊥)
          (λ e w'.
            ((e ≡ invalid_status) ⊎ ((e ≡ link_not_found) ⊎ IsFault e))
            × (table_of sv laws w' ≡ table_of sv laws w₁))
  delete_final owner other code st w w₁ h done gone =
      let (t, (m, _, (_, changed))) = rw (done, Post) at (delete_lem sv laws owner code w h) in
      let l = record m { deleted_at = some t } in
      let co = Rewrites-IsCoherent sv laws code l w w₁ h changed gone in
      let at = row_now code l w w₁ changed in
      Post-mono _ _ _ _ (set_status sv other code st w₁)
        (set_status_lem sv laws other code st w₁ co)
        (λ l' w' (_, (x, at', (owns, _)), _).
          none≢some (sym owns.1 ∙ ap (λ y. y.deleted_at) (eq_of_some-eq (sym at' ∙ at))))
        (λ e w' (why, settled). (which e why, settled.0))
    where
      which :
          {P : Type 0} {Q : Type 0} (e : Error)
          → (((e ≡ invalid_status) × P) ⊎ Misses link_not_found e Q)
          → (e ≡ invalid_status) ⊎ ((e ≡ link_not_found) ⊎ IsFault e)
      which e (inl (p, _)) = inl p
      which e (inr (inl (p, _))) = inr (inl p)
      which e (inr (inr f)) = inr (inr f)
