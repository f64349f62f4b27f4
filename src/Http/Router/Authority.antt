-- ===== src/Http/Router/Authority.antt =====
-- router.go: whose rows a request may change, whichever route serves it.
use youpass_share_service.Base.{
  Bool, Bool-cases, Bytes, Int64, Option, ap, bytes_eq, if◌then◌else◌, inl, inr, is_positive, none,
  refl, some, ◌∙◌, ◌≡◌, ◌⊎◌, nat_eq, bytes_eq_instance,
}
use youpass_share_service.Domain.Error.{}
use youpass_share_service.Domain.Link.{Link, Status, Time, new_link}
use youpass_share_service.Domain.Viewer.{}
use youpass_share_service.Outcome.{Outcome, Post, Post-mono, ret, throw}
use youpass_share_service.Share.Ports.{CreateInput}
use youpass_share_service.Share.Contract.{Holds, Table, write}
use youpass_share_service.Share.Service.{Service, World, create, delete, resolve, set_status, stats}
use youpass_share_service.Share.Coherence.{IsCoherent, IsLawful, table_of}
use youpass_share_service.Share.Resolve.{resolve_answers}
use youpass_share_service.Share.Create.{Made, create_answers}
use youpass_share_service.Share.Create.Results.{}
use youpass_share_service.Share.Manage.{delete_lem, set_status_lem}
use youpass_share_service.Share.Counts.{stats_lem}
use youpass_share_service.Token.{}
use youpass_share_service.Http.{CreateRequest, Request, Response}
use youpass_share_service.Http.Errors.{}
use youpass_share_service.Http.Auth.{Handler}
use youpass_share_service.Http.Access.{}
use youpass_share_service.Http.Handlers.{
  create_handler, delete_handler, resolve_handler, respond, stats_handler, update_status_handler,
  viewer_from,
}
use youpass_share_service.Http.Pages.{}
use youpass_share_service.Http.Router.{}

-- Every row is as before, or is now of a link of user `id`.
abbrev pub ChangesOwn : Int64 → Table → Table → Type 0
ChangesOwn id t t' = (c : Bytes) → (t' c ≡ t c) ⊎ Holds t' c (λ l. l.owner_id ≡ id)

pub same_rows : (id : Int64) (t t' : Table) → t' ≡ t → ChangesOwn id t t'
same_rows id t t' e c = inl (ap (λ (r : Table). r c) e)

write-ChangesOwn :
    (id : Int64) (t t' : Table) (c : Bytes) (l : Link)
    → t' ≡ write t c l
    → l.owner_id ≡ id
    → ChangesOwn id t t'
write-ChangesOwn id t t' c l e own d = elim (Bool-cases (bytes_eq c d)) [
  | inl q ↦ inr (l, ap (λ (r : Table). r d) e ∙ rw (q) refl, own)
  | inr q ↦ inl (ap (λ (r : Table). r d) e ∙ rw (q) refl)
]

-- `respond` leaves the state of the call.
Post-respond :
    {S A : Type 0} (f : A → Response) (o : Outcome S A) (P : S → Type 0)
    → Post o (λ _ s. P s) (λ _ s. P s)
    → P (respond f o).1
Post-respond f (ret a s) P h = h
Post-respond f (throw e s) P h = h

module _ {R C K V G : Type 0} (sv : Service R C K V G) (laws : IsLawful sv)
    (add_days : Time → Int64 → Time) where
  -- A handler that changes rows of the request's user only.
  abbrev pub IsBounded : Handler (World R C K V G) → Type 0
  IsBounded h =
      (req : Request) (w : World R C K V G)
      → IsCoherent sv laws w
      → ChangesOwn req.user_id (table_of sv laws w) (table_of sv laws (h req w).1)

  -- A handler that changes no row.
  abbrev pub IsReader : Handler (World R C K V G) → Type 0
  IsReader h =
      (req : Request) (w : World R C K V G)
      → IsCoherent sv laws w
      → table_of sv laws (h req w).1 ≡ table_of sv laws w

  pub resolve_handler-IsReader : IsReader (resolve_handler sv add_days)
  unfolding resolve_handler
  resolve_handler-IsReader req w h =
      Post-respond _ (resolve sv req.code (viewer_from req) w)
        (λ w'. table_of sv laws w' ≡ table_of sv laws w)
        (Post-mono _ _ _ _ (resolve sv req.code (viewer_from req) w)
          (resolve_answers sv laws req.code (viewer_from req) w h)
          (λ view w' (_, settled). settled.0) (λ e w' (_, settled). settled.0))

  pub stats_handler-IsReader : IsReader (stats_handler sv add_days)
  unfolding stats_handler
  stats_handler-IsReader req w h =
      Post-respond _ (stats sv req.user_id req.code w)
        (λ w'. table_of sv laws w' ≡ table_of sv laws w)
        (Post-mono _ _ _ _ (stats sv req.user_id req.code w)
          (stats_lem sv laws req.user_id req.code w h.inv) (λ st w' (_, same). same.0)
          (λ e w' (_, same). same.0))

  pub delete_handler-IsBounded : IsBounded (delete_handler sv add_days)
  unfolding delete_handler
  delete_handler-IsBounded req w h =
      Post-respond _ (delete sv req.user_id req.code w)
        (λ w'. ChangesOwn req.user_id (table_of sv laws w) (table_of sv laws w'))
        (Post-mono _ _ _ _ (delete sv req.user_id req.code w)
          (delete_lem sv laws req.user_id req.code w h)
          (λ _ w' (t, (m, at, (owns, changed))).
            write-ChangesOwn req.user_id _ _ req.code _ changed.0 owns.0)
          (λ e w' (_, settled). same_rows req.user_id _ _ settled.0))

  pub update_status_handler-IsBounded : IsBounded (update_status_handler sv add_days)
  unfolding update_status_handler
  update_status_handler-IsBounded req w h = go req.status_body refl
    where
      go :
          (o : Option Status)
          → req.status_body ≡ o
          → ChangesOwn req.user_id
              (table_of sv laws w)
              (table_of sv laws (update_status_handler sv add_days req w).1)
      go none e = rw (e, update_status_handler) (same_rows req.user_id _ _ refl)
      go (some st) e =
          rw (e, update_status_handler)
            (Post-respond _ (set_status sv req.user_id req.code st w)
              (λ w'. ChangesOwn req.user_id (table_of sv laws w) (table_of sv laws w'))
              (Post-mono _ _ _ _ (set_status sv req.user_id req.code st w)
                (set_status_lem sv laws req.user_id req.code st w h)
                (λ l w' (_, (m, at, (owns, is)), changed).
                  write-ChangesOwn req.user_id _ _ req.code l changed.0
                    (ap (λ (x : Link). x.owner_id) is ∙ owns.0))
                (λ e w' (_, settled). same_rows req.user_id _ _ settled.0)))

  Made-ChangesOwn :
      (input : CreateInput) (w : World R C K V G) (r : Link × Bool) (w' : World R C K V G)
      → Made sv laws input (table_of sv laws w) r w'
      → ChangesOwn input.owner_id (table_of sv laws w) (table_of sv laws w')
  unfolding new_link
  Made-ChangesOwn input w (l, created) w' (inl (_, _, _, (id, t, is), e)) =
      write-ChangesOwn input.owner_id _ _ l.code l e (ap (λ (x : Link). x.owner_id) is)
  Made-ChangesOwn input w (l, created) w' (inr (_, _, _, e)) = same_rows input.owner_id _ _ e

  pub create_handler-IsBounded : IsBounded (create_handler sv add_days)
  unfolding create_handler
  create_handler-IsBounded req w h = go req.create_body refl
    where
      go :
          (o : Option CreateRequest)
          → req.create_body ≡ o
          → ChangesOwn req.user_id
              (table_of sv laws w)
              (table_of sv laws (create_handler sv add_days req w).1)
      go none e = rw (e, create_handler) (same_rows req.user_id _ _ refl)
      go (some body) e =
          let input : CreateInput = record {
            owner_id = req.user_id;
            resource_type = body.resource_type;
            resource_id = body.resource_id;
            expires_at =
                if is_positive body.expires_in_days
                then some (add_days (sv.now w.env) body.expires_in_days)
                else none;
          } in
          rw (e, create_handler)
            (Post-respond _ (create sv input w)
              (λ w'. ChangesOwn req.user_id (table_of sv laws w) (table_of sv laws w'))
              (Post-mono _ _ _ _ (create sv input w) (create_answers sv laws input w h.inv)
                (λ r w' (_, _, made, _). Made-ChangesOwn input w r w' made)
                (λ x w' (_, same, _). same_rows req.user_id _ _ same)))
