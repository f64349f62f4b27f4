-- ===== src/Tests/Datastore.antt =====
-- The theorems on the connection and the migrations, on a clock and a schema in memory.
use youpass_share_service.Base.{
  All, All-mono, Bool, Bool-cases, Bytes, List, Option, [], ap, bytes_eq, bytes_eq_refl, codes,
  eq_of_bytes_eq, false, false≢true, if◌then◌else◌, inl, inr, ltb, none, refl, some, true, ℕ, ◌++◌,
  ◌+◌, ◌∷◌, ◌≡◌, ◌⊎◌,
}
use youpass_share_service.Domain.Error.{unavailable}
use youpass_share_service.Outcome.{Outcome, Post, ret, throw}
use youpass_share_service.Datastore.{retry}
use youpass_share_service.Datastore.Retrying.{GivesUp, RetryLaws, Succeeds, retry_lem}
use youpass_share_service.Datastore.Migrations.{
  Database, apply_body, migrate, migrate_connected, migrate_file, migrate_files, migrate_locked,
}
use youpass_share_service.Datastore.Migrations.Applying.{MigrationLaws, Stored}
use youpass_share_service.Datastore.Migrations.Once.{migrate_once}

record Clock : Type 0 where
  count : ℕ
  time : ℕ

-- The dependency answers from the third call on.
abbrev ping_third : Clock → Outcome Clock (Unit {0})
ping_third s =
    if ltb s.count 2
    then throw unavailable (record s { count = s.count + 1 })
    else ret tt (record s { count = s.count + 1 })

abbrev pause : ℕ → Clock → Outcome Clock (Unit {0})
pause d s = ret tt (record s { time = s.time + d })

pinged_third :
    (s : Clock)
    → Post
        (ping_third s)
        (λ _ t. (t.count ≡ s.count + 1) × (t.time ≡ s.time))
        (λ _ t. (t.count ≡ s.count + 1) × (t.time ≡ s.time))
pinged_third s = elim (Bool-cases (ltb s.count 2)) [
  | inl q ↦ rw q (refl, refl)
  | inr q ↦ rw q (refl, refl)
]

abbrev retry_laws : RetryLaws ping_third pause
retry_laws = record {
  calls = λ s. s.count;
  waited = λ s. s.time;
  IsDone = λ _. ⊥;
  pinged = pinged_third;
  paused = λ d s. (refl, refl);
}

abbrev at_start : Clock
at_start = record { count = 0; time = 0 }

retry_lem_example :
    Post
      (retry ping_third pause at_start)
      (λ _ t. Succeeds ping_third pause retry_laws 10 37500000000 at_start t)
      (λ x t. GivesUp ping_third pause retry_laws 10 37500000000 at_start x t)
retry_lem_example = retry_lem ping_third pause retry_laws at_start

retry_third : retry ping_third pause at_start ≡ ret tt (record { count = 3; time = 1500000000 })
unfolding retry
retry_third = refl

record Schema : Type 0 where
  done : List Bytes
  kept : List Bytes
  inserted : Option Bytes
  open_scripts : List Bytes
  ran : List Bytes

abbrev is_done : List Bytes → Bytes → Bool
is_done [] n = false
is_done (m ∷ l) n = if bytes_eq m n then true else is_done l n

abbrev with_inserted : Option Bytes → List Bytes → List Bytes
with_inserted none l = l
with_inserted (some n) l = n ∷ l

abbrev scripts : List Bytes
scripts = codes "2.sql" ∷ codes "1.sql" ∷ []

abbrev schema : Database Schema
schema = record {
  acquire = λ s. ret tt s;
  release = λ s. s;
  lock = λ s. ret tt s;
  unlock = λ s. s;
  create_table = λ s. ret tt s;
  glob = λ s. ret scripts s;
  is_applied = λ n s. ret (is_done s.done n) s;
  read_file = λ n s. ret n s;
  begin = λ s. ret tt (record s { inserted = none; open_scripts = [] });
  exec = λ b s. ret tt (record s { ran = s.ran ++ b ∷ []; open_scripts = b ∷ s.open_scripts });
  record_version = λ n s. ret tt (record s { inserted = some n });
  commit = λ s.
      ret tt (record s { done = with_inserted s.inserted s.done; kept = s.open_scripts ++ s.kept });
  rollback = λ s. ret tt (record s { inserted = none });
}

now_done :
    (o : Option Bytes) (l : List Bytes) (n : Bytes)
    → o ≡ some n
    → is_done (with_inserted o l) n ≡ true
now_done o l n e = rw (e, bytes_eq_refl) refl

still_done :
    (o : Option Bytes) (l : List Bytes) (m : Bytes)
    → is_done l m ≡ true
    → is_done (with_inserted o l) m ≡ true
still_done none l m h = h
still_done (some n) l m h = elim (Bool-cases (bytes_eq n m)) [ inl q ↦ rw q refl | inr q ↦ rw q h ]

only_done :
    (o : Option Bytes) (l : List Bytes) (m : Bytes)
    → is_done (with_inserted o l) m ≡ true
    → (is_done l m ≡ true) ⊎ (o ≡ some m)
only_done none l m h = inl h
only_done (some n) l m h = elim (Bool-cases (bytes_eq n m)) [
  | inl q ↦ inr (ap some (eq_of_bytes_eq n m q))
  | inr q ↦ inl (rw q at h)
]

now_kept : (l k : List Bytes) → All (λ b. is_done (l ++ k) b ≡ true) l
now_kept [] k = tt
now_kept (b ∷ l) k = (
  rw (bytes_eq_refl b) refl,
  All-mono _ _ l (λ m h. still_done (some b) (l ++ k) m h) (now_kept l k),
)

still_kept : (l k : List Bytes) (b : Bytes) → is_done k b ≡ true → is_done (l ++ k) b ≡ true
still_kept [] k b h = h
still_kept (m ∷ l) k b h = still_done (some m) (l ++ k) b (still_kept l k b h)

abbrev schema_laws : MigrationLaws schema
schema_laws = record {
  files = scripts;
  contents = λ n. n;
  stored = λ s. record { versions = is_done s.done; scripts = is_done s.kept };
  staged = λ s. s.inserted;
  pending = λ s. s.open_scripts;
  executed = λ s. s.ran;
  acquiring = λ s. (refl, refl);
  locking = λ s. (refl, refl);
  creating = λ s. (refl, refl);
  releasing = λ s. (refl, refl);
  unlocking = λ s. (refl, refl);
  globbing = λ s. (refl, refl, refl);
  asking = λ n s. (refl, refl, refl);
  reading = λ n s. (refl, refl);
  beginning = λ s. refl;
  executing = λ b s. (refl, refl);
  recording = λ n s. (refl, refl, refl);
  committing = λ s. (
    λ n e. now_done s.inserted s.done n e,
    λ m h. still_done s.inserted s.done m h,
    λ m h. only_done s.inserted s.done m h,
    now_kept s.open_scripts s.kept,
    λ b h. still_kept s.open_scripts s.kept b h,
  );
  rolling = λ s. refl;
}

abbrev empty_schema : Schema
empty_schema = record { done = []; kept = []; inserted = none; open_scripts = []; ran = [] }

abbrev migrated : Schema
migrated = record {
  done = codes "2.sql" ∷ codes "1.sql" ∷ [];
  kept = codes "2.sql" ∷ codes "1.sql" ∷ [];
  inserted = some (codes "2.sql");
  open_scripts = codes "2.sql" ∷ [];
  ran = codes "1.sql" ∷ codes "2.sql" ∷ [];
}

-- The files run in the order of their names.
in_order : migrate schema empty_schema ≡ ret tt migrated
unfolding migrate migrate_connected migrate_locked migrate_files migrate_file apply_body bytes_eq
in_order = refl

abbrev stored : Schema → Stored
stored s = schema_laws.stored s

migrate_once_example :
    All (λ n. (is_done migrated.done n ≡ true) × (is_done migrated.kept n ≡ true)) scripts
    × Post
        (migrate schema migrated)
        (λ _ t. (stored t ≡ stored migrated) × (t.ran ≡ migrated.ran))
        (λ _ t. (stored t ≡ stored migrated) × (t.ran ≡ migrated.ran))
migrate_once_example =
    migrate_once schema schema_laws empty_schema migrated (λ n h. absurd (false≢true h)) in_order
