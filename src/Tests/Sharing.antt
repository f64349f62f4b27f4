-- ===== src/Tests/Sharing.antt =====
-- The theorems on the use cases, on the concrete service.
use youpass_share_service.Base.{
  [], bytes_eq, erase, false, insert, lookup, none, refl, some, true, ◌∷◌, ◌≡◌, ◌⊎◌, nat_eq,
  bytes_eq_instance,
}
use youpass_share_service.Domain.Error.{err_is, invalid_status, link_not_found}
use youpass_share_service.Domain.Link.{
  Link, new_link, resource_valid, resource_writing, status_active, status_disabled, status_valid,
}
use youpass_share_service.Outcome.{Post, ret, throw}
use youpass_share_service.Share.Ports.{CreateInput}
use youpass_share_service.Share.Service.{
  attempts, create, delete, get_link, insert_step, invalidate, obtain, resolve, set_status, stats,
}
use youpass_share_service.Share.Lookup.{get_link_lem}
use youpass_share_service.Share.Coherence.{Found, IsCoherent, Missed, Stays, table_of}
use youpass_share_service.Tests.{
  World₀, code_a, created, essay, essay_link, guest, laws, shared, start, sv,
}
use youpass_share_service.Share.Contract.{Holds, IsFault, Owns, absent, missing}
use youpass_share_service.Share.Revoke.{IsGone, delete_final, delete_revokes, disable_revokes}
use youpass_share_service.Share.Create.{Holding, Made, Rejects, create_answers, ownership}
use youpass_share_service.Share.Counts.{Counted, Unchanged, Uncounted, stats_lem}
use youpass_share_service.Share.Again.{create-IsCoherent, create_hidden, create_twice}
use youpass_share_service.Memory.Repository.{
  find_by_resource, first_shared, insert_link, owned, soft_delete, update_status,
}
use youpass_share_service.Memory.Cache.{Cache, get, new_cache}
use youpass_share_service.Domain.Viewer.{}
use youpass_share_service.Memory.Content.{Content, is_owner}
use youpass_share_service.Domain.Code.{valid_code}

pub start-IsCoherent : IsCoherent sv laws start
unfolding lookup
start-IsCoherent = record { inv = tt; fits = λ c. tt }

known_apart : ¬ (absent ≡ missing)
known_apart p = cc p

pub shared-IsCoherent : IsCoherent sv laws shared
unfolding lookup
shared-IsCoherent =
    create-IsCoherent sv laws essay start shared essay_link true start-IsCoherent created
      (λ p. absurd (known_apart p))

create_answers_example :
    Post
      (create sv essay start)
      (λ r w'.
        (resource_valid resource_writing ≡ true)
        × ((k : Content) × (ownership sv laws essay start ≡ ret true k))
        × Made sv laws essay (table_of sv laws start) r w'
        × Holding sv laws start w')
      (λ e w'.
        Rejects sv laws essay start e
        × (table_of sv laws w' ≡ table_of sv laws start)
        × Holding sv laws start w')
create_answers_example = create_answers sv laws essay start tt

-- Another owner, as the submissions have it now, without an expiry.
abbrev essay_again : CreateInput
essay_again = record essay { owner_id = 2; expires_at = none }

create_twice_example :
    Post
      (create sv essay_again shared)
      (λ r w₂. (r.0 ≡ essay_link) × (r.1 ≡ false) × (table_of sv laws w₂ ≡ table_of sv laws shared))
      (λ e w₂. table_of sv laws w₂ ≡ table_of sv laws shared)
create_twice_example =
    create_twice sv laws essay essay_again start shared essay_link true tt created refl refl

create-IsCoherent_example : IsCoherent sv laws shared
unfolding lookup
create-IsCoherent_example =
    create-IsCoherent sv laws essay start shared essay_link true start-IsCoherent created
      (λ p. absurd (known_apart p))

get_link_lem_example :
    Post
      (get_link sv code_a shared)
      (λ l w'. Found sv laws code_a l shared × Stays sv laws shared w')
      (λ e w'. Missed sv laws code_a e shared × Stays sv laws shared w')
get_link_lem_example = get_link_lem sv laws code_a shared shared-IsCoherent

-- After `SetStatus` has disabled the link.
abbrev pub disabled_link : Link
disabled_link = record essay_link { status = status_disabled }

abbrev pub disabled : World₀
disabled = record shared { repo = record shared.repo { links = (code_a, disabled_link) ∷ [] } }

pub disabling : set_status sv 1 code_a status_disabled shared ≡ ret disabled_link disabled
unfolding set_status status_valid invalidate update_status owned lookup insert erase bytes_eq
    youpass_share_service.Memory.Cache.invalidate
disabling = refl

disable_revokes_example :
    Post (resolve sv code_a guest disabled) (λ _ _. ⊥) (λ e _. IsGone code_a e)
unfolding youpass_share_service.Memory.Cache.invalidate
disable_revokes_example =
    disable_revokes sv laws 1 code_a guest shared disabled disabled_link shared-IsCoherent disabling
      (_, refl)

abbrev deleted : World₀
deleted = record shared {
  repo = record shared.repo { links = (code_a, record essay_link { deleted_at = some 10 }) ∷ [] };
}

deleting : delete sv 1 code_a shared ≡ ret tt deleted
unfolding delete invalidate soft_delete owned lookup insert erase bytes_eq
    youpass_share_service.Memory.Cache.invalidate
deleting = refl

delete_revokes_example : Post (resolve sv code_a guest deleted) (λ _ _. ⊥) (λ e _. IsGone code_a e)
unfolding youpass_share_service.Memory.Cache.invalidate
delete_revokes_example =
    delete_revokes sv laws 1 code_a guest shared deleted shared-IsCoherent deleting (_, refl)

delete_final_example :
    Post
      (set_status sv 1 code_a status_active deleted)
      (λ _ _. ⊥)
      (λ e w'.
        ((e ≡ invalid_status) ⊎ ((e ≡ link_not_found) ⊎ IsFault e))
        × (table_of sv laws w' ≡ table_of sv laws deleted))
unfolding lookup
delete_final_example =
    delete_final sv laws 1 1 code_a status_active shared deleted shared-IsCoherent deleting refl

-- Someone has looked up code_a before it is drawn, and the cache has noted that it is missing.
abbrev guessed : World₀
guessed = record start { cached = record new_cache { negative = (code_a, true) ∷ [] } }

hidden :
    create sv essay guessed ≡ ret (essay_link, true) (record shared { cached = guessed.cached })
unfolding create obtain attempts insert_step resource_valid is_owner find_by_resource first_shared
    insert_link new_link err_is lookup insert bytes_eq
hidden = refl

negative : get code_a guessed.cached ≡ throw link_not_found guessed.cached
unfolding get lookup bytes_eq
negative = refl

well_formed : valid_code code_a ≡ true
unfolding valid_code
well_formed = refl

create_hidden_example :
    resolve sv code_a guest (record shared { cached = guessed.cached })
    ≡ throw link_not_found (record shared { cached = guessed.cached })
create_hidden_example =
    create_hidden sv laws essay guest guessed (record shared { cached = guessed.cached }) essay_link
      true guessed.cached tt hidden negative well_formed

stats_lem_example :
    Post
      (stats sv 1 code_a shared)
      (λ st w'.
        Holds (table_of sv laws shared) code_a (λ m. Owns 1 m × Counted sv laws m shared st)
        × Unchanged sv laws shared w')
      (λ e w'. Uncounted sv laws 1 code_a shared e × Unchanged sv laws shared w')
stats_lem_example = stats_lem sv laws 1 code_a shared shared-IsCoherent.inv
