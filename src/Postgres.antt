-- ===== src/Postgres.antt =====
-- internal/adapter/pgstore: the ports over PostgreSQL, whose statements are parameters.
pub mod Rows
pub mod Laws
pub mod Table
pub mod Reads
pub mod Changes
pub mod Adding
pub mod Keeping
use youpass_share_service.Base.{
  Bool, Bytes, Dict, Int64, List, codes, eqb, if◌then◌else◌, inl, inr, map, ℕ, ◌==◌, ◌⊎◌, nat_eq,
  bytes_eq_instance,
}
use youpass_share_service.Domain.Error.{
  Error, already_shared, duplicate_code, err_is, link_not_found, submission_not_found,
}
use youpass_share_service.Domain.Link.{Link, ResourceType, Snapshot, Status, Time}
use youpass_share_service.Outcome.{Act, Outcome, ret, throw, ◌>>=◌, ◌>>◌}
use youpass_share_service.Share.Ports.{ContentReader, LinkRepository}
use youpass_share_service.Redis.Snapshots.{SubmissionRepository}

-- An error of INSERT: a violated unique constraint, by its name, or another.
pub data InsertError : Type 0 where
  unique_violation : Bytes → InsertError
  other : Error → InsertError

-- The statements of link_repository.go and submission_repository.go, with pgx.ErrNoRows. A
-- statement gives a row, or the number of rows that it changed.
pub record Statements (S : Type 0) : Type 0 where
  pub no_rows : Error
  pub insert : Link → S → (InsertError ⊎ (Int64 × Time)) × S
  pub select_code : Bytes → Act S Link
  pub select_resource : ResourceType → Int64 → Act S Link
  pub select_owned : Bytes → Int64 → Act S Link
  pub update_status : Bytes → Int64 → Status → Act S Link
  pub mark_deleted : Bytes → Int64 → Act S ℕ
  pub add_views : List Int64 → List Int64 → Act S (Unit {0})
  pub exists_owner : ResourceType → Int64 → Int64 → Act S Bool
  pub select_snapshot : ResourceType → Int64 → Act S Snapshot
  pub delete_submission : Int64 → Int64 → Act S ResourceType

-- A row that is not there is an error of the domain.
abbrev pub scan : {S A : Type 0} → Error → Error → Outcome S A → Outcome S A
scan no_rows sentinel (ret a s) = ret a s
scan no_rows sentinel (throw e s) = if err_is e no_rows then throw sentinel s else throw e s

abbrev pub active_resource : Bytes
active_resource = codes "uq_share_links_active_resource"

module _ {S : Type 0} (db : Statements S) where
  unfoldable pub scan_link : Act S Link → Act S Link
  scan_link m s = scan db.no_rows link_not_found (m s)

  unfoldable pub insert_row : Link → Act S Link
  insert_row l s = elim (db.insert l s).0 [
    | inl (unique_violation name) ↦
        if name == active_resource
        then throw already_shared (db.insert l s).1
        else throw duplicate_code (db.insert l s).1
    | inl (other e) ↦ throw e (db.insert l s).1
    | inr (id, at) ↦ ret (record l { id = id; created_at = at }) (db.insert l s).1
  ]

  unfoldable pub delete_row : Bytes → Int64 → Act S (Unit {0})
  delete_row code owner = do
    n ← db.mark_deleted code owner
    if eqb n 0 then throw link_not_found else ret tt

  abbrev pub postgres_links : LinkRepository S
  postgres_links = record {
    insert = insert_row;
    find_by_code = λ code. scan_link (db.select_code code);
    find_by_resource = λ rt id. scan_link (db.select_resource rt id);
    find_owned = λ code owner. scan_link (db.select_owned code owner);
    update_status = λ code owner st. scan_link (db.update_status code owner st);
    soft_delete = delete_row;
  }

  -- The deltas as two columns.
  unfoldable pub add_view_rows : Dict Int64 Int64 → Act S (Unit {0})
  add_view_rows deltas = db.add_views (map (λ d. d.0) deltas) (map (λ d. d.1) deltas)

  abbrev pub postgres_content : ContentReader S
  postgres_content = record {
    is_owner = db.exists_owner;
    snapshot = λ rt id s. scan db.no_rows submission_not_found (db.select_snapshot rt id s);
  }

  abbrev pub postgres_submissions : SubmissionRepository S
  postgres_submissions = record {
    soft_delete =
        λ user id s. scan db.no_rows submission_not_found (db.delete_submission user id s);
  }
