-- ===== src/Datastore/Migrations.antt =====
-- postgres.go, Migrate: the files that are not applied yet, each in a transaction of its own.
pub mod Applying
pub mod Once
use youpass_share_service.Base.{
  Bool, Bytes, List, [], eqb, false, if◌then◌else◌, ltb, true, ◌&&◌, ◌||◌, ◌∷◌,
}
use youpass_share_service.Domain.Error.{}
use youpass_share_service.Outcome.{Act, handle, ignore, ret, throw, ◌>>=◌, ◌>>◌}

-- The connection, the transaction that is open on it, and the files. `release` and `unlock` drop
-- their errors; `is_applied` asks schema_migrations for a version.
pub record Database (S : Type 0) : Type 0 where
  pub acquire : Act S (Unit {0})
  pub release : S → S
  pub lock : Act S (Unit {0})
  pub unlock : S → S
  pub create_table : Act S (Unit {0})
  pub glob : Act S (List Bytes)
  pub is_applied : Bytes → Act S Bool
  pub read_file : Bytes → Act S Bytes
  pub begin : Act S (Unit {0})
  pub exec : Bytes → Act S (Unit {0})
  pub record_version : Bytes → Act S (Unit {0})
  pub commit : Act S (Unit {0})
  pub rollback : Act S (Unit {0})

-- The order of texts, and sort.Strings.
abbrev pub text_leb : Bytes → Bytes → Bool
text_leb [] t = true
text_leb (c ∷ s) [] = false
text_leb (c ∷ s) (d ∷ t) = let rest = text_leb s t in ltb c d || (eqb c d && rest)

abbrev pub place : Bytes → List Bytes → List Bytes
place s [] = s ∷ []
place s (t ∷ l) = let rest = place s l in if text_leb s t then s ∷ t ∷ l else t ∷ rest

abbrev pub sort_texts : List Bytes → List Bytes
sort_texts [] = []
sort_texts (s ∷ l) = place s (sort_texts l)

-- A deferred call: it runs after the body, whatever the body returns.
abbrev pub defer : {S : Type 0} → (S → S) → Act S (Unit {0}) → Act S (Unit {0})
defer cleanup m s = elim (m s) [ ret a t ↦ ret a (cleanup t) | throw e t ↦ throw e (cleanup t) ]

module _ {S : Type 0} (db : Database S) where
  -- A statement of the transaction: after an error it is rolled back.
  abbrev pub or_rollback : Act S (Unit {0}) → Act S (Unit {0})
  or_rollback m = handle m ret (λ e. do ignore db.rollback; throw e)

  -- The loop's body, from the file's text on.
  unfoldable pub apply_body : Bytes → Bytes → Act S (Unit {0})
  apply_body name body = do
    db.begin
    or_rollback (db.exec body)
    or_rollback (db.record_version name)
    db.commit

  unfoldable pub migrate_file : Bytes → Act S (Unit {0})
  unfolding apply_body
  migrate_file name = do
    applied ← db.is_applied name
    if applied then ret tt else (do body ← db.read_file name; apply_body name body)

  unfoldable pub migrate_files : List Bytes → Act S (Unit {0})
  migrate_files [] = ret tt
  migrate_files (name ∷ names) = do migrate_file name; migrate_files names

  -- `Migrate` with the advisory lock, and with the connection.
  unfoldable pub migrate_locked : Act S (Unit {0})
  unfolding migrate_files
  migrate_locked = do db.create_table; files ← db.glob; migrate_files (sort_texts files)

  unfoldable pub migrate_connected : Act S (Unit {0})
  unfolding migrate_locked
  migrate_connected = do db.lock; defer db.unlock migrate_locked

  unfoldable pub migrate : Act S (Unit {0})
  unfolding migrate_connected
  migrate = do db.acquire; defer db.release migrate_connected
