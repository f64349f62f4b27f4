-- ===== src/Share/Service.antt =====
-- usecase/share/service.go, create.go, resolve.go and manage.go.
use youpass_share_service.Base.{
  Bool, Bytes, Int64, add64, false, if◌then◌else◌, none, not, some, suc, true, zero, ℕ, ◌++◌,
  nat_eq, bytes_eq_instance,
}
use youpass_share_service.Domain.Error.{
  Error, already_shared, code_exhausted, duplicate_code, err_is, forbidden, invalid_resource_type,
  invalid_status, link_gone, link_not_found, submission_not_found,
}
use youpass_share_service.Domain.Link.{
  Link, Snapshot, Status, Time, accessible, counts_view_from, new_link, resource_valid,
  status_valid,
}
use youpass_share_service.Domain.Viewer.{Unicode, Viewer, key}
use youpass_share_service.Domain.Code.{valid_code}
use youpass_share_service.Outcome.{Act, Post, Post-move, handle, ignore, ret, throw, ◌>>=◌, ◌>>◌}
use youpass_share_service.Share.Ports.{
  ContentReader, CreateInput, LinkCache, LinkRepository, SharedView, Stats, ViewTracker,
}

-- The states behind the ports, each reached through its own port; `env` is that of the code
-- generator and the clock.
pub record World (R C K V G : Type 0) : Type 0 where
  pub repo : R
  pub cached : C
  pub submissions : K
  pub counters : V
  pub env : G

module _ {R C K V G A : Type 0} where
  -- A call of a port works on the part of the world behind it.
  abbrev pub on_repo : Act R A → Act (World R C K V G) A
  on_repo m w = elim (m w.repo) [
    | ret a s ↦ ret a (record w { repo = s })
    | throw e s ↦ throw e (record w { repo = s })
  ]

  abbrev pub on_cache : Act C A → Act (World R C K V G) A
  on_cache m w = elim (m w.cached) [
    | ret a s ↦ ret a (record w { cached = s })
    | throw e s ↦ throw e (record w { cached = s })
  ]

  abbrev pub on_content : Act K A → Act (World R C K V G) A
  on_content m w = elim (m w.submissions) [
    | ret a s ↦ ret a (record w { submissions = s })
    | throw e s ↦ throw e (record w { submissions = s })
  ]

  abbrev pub on_views : Act V A → Act (World R C K V G) A
  on_views m w = elim (m w.counters) [
    | ret a s ↦ ret a (record w { counters = s })
    | throw e s ↦ throw e (record w { counters = s })
  ]

  abbrev pub on_env : Act G A → Act (World R C K V G) A
  on_env m w = elim (m w.env) [
    | ret a s ↦ ret a (record w { env = s })
    | throw e s ↦ throw e (record w { env = s })
  ]

  pub Post-on_repo :
      (P : A → World R C K V G → Type 0) (Q : Error → World R C K V G → Type 0) (m : Act R A)
      (w : World R C K V G)
      → Post (m w.repo) (λ a s. P a (record w { repo = s })) (λ e s. Q e (record w { repo = s }))
      → Post (on_repo m w) P Q
  Post-on_repo P Q m w h = Post-move P Q (m w.repo) (λ s. record w { repo = s }) h

  pub Post-on_cache :
      (P : A → World R C K V G → Type 0) (Q : Error → World R C K V G → Type 0) (m : Act C A)
      (w : World R C K V G)
      → Post
          (m w.cached)
          (λ a s. P a (record w { cached = s }))
          (λ e s. Q e (record w { cached = s }))
      → Post (on_cache m w) P Q
  Post-on_cache P Q m w h = Post-move P Q (m w.cached) (λ s. record w { cached = s }) h

  pub Post-on_env :
      (P : A → World R C K V G → Type 0) (Q : Error → World R C K V G → Type 0) (m : Act G A)
      (w : World R C K V G)
      → Post (m w.env) (λ a s. P a (record w { env = s })) (λ e s. Q e (record w { env = s }))
      → Post (on_env m w) P Q
  Post-on_env P Q m w h = Post-move P Q (m w.env) (λ s. record w { env = s }) h

  pub Post-on_content :
      (P : A → World R C K V G → Type 0) (Q : Error → World R C K V G → Type 0) (m : Act K A)
      (w : World R C K V G)
      → Post
          (m w.submissions)
          (λ a s. P a (record w { submissions = s }))
          (λ e s. Q e (record w { submissions = s }))
      → Post (on_content m w) P Q
  Post-on_content P Q m w h = Post-move P Q (m w.submissions) (λ s. record w { submissions = s }) h

  pub Post-on_views :
      (P : A → World R C K V G → Type 0) (Q : Error → World R C K V G → Type 0) (m : Act V A)
      (w : World R C K V G)
      → Post
          (m w.counters)
          (λ a s. P a (record w { counters = s }))
          (λ e s. Q e (record w { counters = s }))
      → Post (on_views m w) P Q
  Post-on_views P Q m w h = Post-move P Q (m w.counters) (λ s. record w { counters = s }) h

-- The fields of `Service`, and what its methods take from packages: `flight` is the group's Do of
-- x/sync/singleflight, `sha256` of crypto/sha256 and `unicode` of package unicode.
pub record Service (R C K V G : Type 0) : Type 0 where
  pub links : LinkRepository R
  pub cache : LinkCache C
  pub content : ContentReader K
  pub views : ViewTracker V
  pub base_url : Bytes
  pub new_code : Act G Bytes
  pub now : G → Time
  pub flight : Bytes → Act (World R C K V G) Link → Act (World R C K V G) Link
  pub sha256 : Bytes → Bytes
  pub unicode : Unicode

abbrev pub max_code_retry : ℕ
max_code_retry = 3

module _ {R C K V G : Type 0} (sv : Service R C K V G) where
  -- The methods' calls of the ports.
  abbrev S : Type 0
  S = World R C K V G

  unfoldable pub url : Bytes → Bytes
  url code = sv.base_url ++ code

  -- The body of the retry loop once a code is drawn; `retry` is what its `continue` goes on with.
  unfoldable pub insert_step : Act S (Link × Bool) → CreateInput → Bytes → Act S (Link × Bool)
  insert_step retry input code =
      handle
        (on_repo (
          sv.links.insert
            (new_link code input.owner_id input.resource_type input.resource_id input.expires_at)))
        (λ inserted. ret (inserted, true))
        λ e.
          if err_is e duplicate_code
          then retry
          else if err_is e already_shared
          then (do
            existing ← on_repo (sv.links.find_by_resource input.resource_type input.resource_id)
            ret (existing, false))
          else throw e

  -- `for attempt := 0; attempt < maxCodeRetry; attempt++`, by the attempts left.
  unfoldable pub attempts : ℕ → CreateInput → Act S (Link × Bool)
  attempts zero input = throw code_exhausted
  attempts (suc n) input = do code ← on_env sv.new_code; insert_step (attempts n input) input code

  -- `Create` from the look-up of an existing link on.
  unfoldable pub obtain : CreateInput → Act S (Link × Bool)
  obtain input =
      handle (on_repo (sv.links.find_by_resource input.resource_type input.resource_id))
        (λ existing. ret (existing, false))
        λ e. if not (err_is e link_not_found) then throw e else attempts max_code_retry input

  unfoldable pub create : CreateInput → Act S (Link × Bool)
  create input =
      if not (resource_valid input.resource_type) then throw invalid_resource_type else (do
        owned ←
            on_content (sv.content.is_owner input.resource_type input.resource_id input.owner_id)
        if not owned then throw forbidden else obtain input)

  -- The function that `getLink` hands to singleflight.
  unfoldable pub load_link : Bytes → Act S Link
  load_link code =
      handle (on_repo (sv.links.find_by_code code))
        (λ link. do ignore (on_cache (sv.cache.set link)); ret link)
        λ e.
          if err_is e link_not_found
          then (do ignore (on_cache (sv.cache.set_not_found code)); throw e)
          else throw e

  unfoldable pub get_link : Bytes → Act S Link
  get_link code =
      handle (on_cache (sv.cache.get code)) ret
        λ e. if err_is e link_not_found then throw e else sv.flight code (load_link code)

  -- The view that a successful `Resolve` returns.
  unfoldable pub shared_view : Link → Snapshot → SharedView
  shared_view link snap = record {
    code = link.code;
    owner_name = snap.owner_name;
    kind = link.resource_type;
    title = snap.title;
    content = snap.content;
    band_score = snap.band_score;
    feedback = snap.feedback;
    shared_at = link.created_at;
  }

  -- `if link.CountsViewFrom(v) { s.views.Track(link.ID, v.Key()) }`
  unfoldable pub count_view : Link → Viewer → Act S (Unit {0})
  count_view link v s =
      if counts_view_from sv.unicode link v
      then ret tt (record s { counters = sv.views.track link.id (key sv.sha256 v) s.counters })
      else ret tt s

  -- `Resolve` from the access check on.
  unfoldable pub show : Link → Viewer → Act S SharedView
  unfolding count_view shared_view
  show link v s = elim (accessible link (sv.now s.env)) [
    | some e ↦ throw e s
    | none ↦
        handle (on_content (sv.content.snapshot link.resource_type link.resource_id))
          (λ snap. do count_view link v; ret (shared_view link snap))
          (λ e. if err_is e submission_not_found then throw link_gone else throw e) s
  ]

  unfoldable pub resolve : Bytes → Viewer → Act S SharedView
  resolve code v =
      if not (valid_code code) then throw link_not_found else (do link ← get_link code; show link v)

  -- An error of the cache is logged, and the operation goes on.
  unfoldable pub invalidate : Bytes → Act S (Unit {0})
  invalidate code = ignore (on_cache (sv.cache.invalidate code))

  unfoldable pub set_status : Int64 → Bytes → Status → Act S Link
  unfolding invalidate
  set_status owner_id code st =
      if not (status_valid st)
      then throw invalid_status
      else (do link ← on_repo (sv.links.update_status code owner_id st); invalidate code; ret link)

  unfoldable pub delete : Int64 → Bytes → Act S (Unit {0})
  unfolding invalidate
  delete owner_id code = do on_repo (sv.links.soft_delete code owner_id); invalidate code

  unfoldable pub stats : Int64 → Bytes → Act S Stats
  stats owner_id code = do
    link ← on_repo (sv.links.find_owned code owner_id)
    (waiting, unique) ← on_views (sv.views.pending link.id)
    ret (record { total_views = add64 link.view_count waiting; unique_today = unique })
