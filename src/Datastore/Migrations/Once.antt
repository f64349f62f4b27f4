-- ===== src/Datastore/Migrations/Once.antt =====
-- postgres.go, Migrate: every file is applied, and a second run executes nothing.
use youpass_share_service.Base.{
  All, All-mono, Bool-cases, Bytes, List, [], ap, inl, inr, refl, subst, sym, true, ◌∙◌, ◌∷◌, ◌≡◌,
}
use youpass_share_service.Domain.Error.{}
use youpass_share_service.Outcome.{
  Act, Outcome, Post, Post-bind, Post-mono, Post-move, Post-ret, ret,
}
use youpass_share_service.Datastore.Migrations.{
  Database, apply_body, defer, migrate, migrate_connected, migrate_file, migrate_files,
  migrate_locked, sort_texts,
}
use youpass_share_service.Datastore.Migrations.Applying.{
  All-sort_texts, Grows, Grows-trans, HasRun, MigrationLaws, Same, Stored, applied, apply_body_lem,
  ran, same_Grows, sort_texts-All,
}

module _ {S : Type 0} (db : Database S) (laws : MigrationLaws db) where
  -- A call that succeeds leaves P, and no call loses a version.
  abbrev Leaves : (S → Type 0) → S → Outcome S (Unit {0}) → Type 0
  Leaves P s o = Post o (λ _ t. P t × Grows db laws s t) (λ _ t. Grows db laws s t)

  -- The call executes nothing and changes no version.
  abbrev Rests : S → Outcome S (Unit {0}) → Type 0
  Rests s o = Post o (λ _ t. Same db laws s t) (λ _ t. Same db laws s t)

  abbrev AllApplied : List Bytes → S → Type 0
  AllApplied l s = All (λ n. applied db laws s n ≡ true) l

  migrate_file_lem :
      (n : Bytes) (s : S) → Leaves (λ t. applied db laws t n ≡ true) s (migrate_file db n s)
  unfolding migrate_file
  migrate_file_lem n s = Post-bind _ _ (db.is_applied n) _ s (
      Post-mono _ _ _ _ (db.is_applied n s) (laws.asking n s)
        (λ b t (is, same, _). elim (Bool-cases b) [
          | inl q ↦
              rw q
                (ap (λ (f : Stored). f.versions n) same ∙ (sym is ∙ q), same_Grows db laws s t same)
          | inr q ↦ rw q (
              Post-bind _ _ (db.read_file n) _ t (
                Post-mono _ _ _ _ (db.read_file n t) (laws.reading n t)
                  (λ body u (is_text, e).
                    subst (λ b. Leaves (λ v. applied db laws v n ≡ true) s (apply_body db n b u))
                      (sym is_text)
                      (Post-mono _ _ _ _ (apply_body db n (laws.contents n) u)
                        (apply_body_lem db laws n u)
                        (λ _ v (now, grown). (
                          now,
                          Grows-trans db laws s u v (same_Grows db laws s u (e ∙ same)) grown,
                        ))
                        (λ _ v grown.
                          Grows-trans db laws s u v (same_Grows db laws s u (e ∙ same)) grown)))
                  (λ _ u e. same_Grows db laws s u (e ∙ same))))
        ])
        (λ _ t (same, _). same_Grows db laws s t same))

  migrate_file-Rests :
      (n : Bytes) (s : S) → applied db laws s n ≡ true → Rests s (migrate_file db n s)
  unfolding migrate_file
  migrate_file-Rests n s done = Post-bind _ _ (db.is_applied n) _ s (
      Post-mono _ _ _ _ (db.is_applied n s) (laws.asking n s)
        (λ b t (is, same, quiet). rw (is ∙ done) (same, quiet)) (λ _ t h. h))

  migrate_files_lem : (l : List Bytes) (s : S) → Leaves (AllApplied l) s (migrate_files db l s)
  unfolding migrate_files
  migrate_files_lem [] s = (tt, same_Grows db laws s s refl)
  migrate_files_lem (n ∷ l) s = Post-bind _ _ (migrate_file db n) _ s (
      Post-mono _ _ _ _ (migrate_file db n s) (migrate_file_lem n s)
        (λ _ t (now, kept).
          Post-mono _ _ _ _ (migrate_files db l t) (migrate_files_lem l t)
            (λ _ u (rest, still). ((still.0 n now, rest), Grows-trans db laws s t u kept still))
            (λ _ u still. Grows-trans db laws s t u kept still))
        (λ _ t kept. kept))

  migrate_files-Rests : (l : List Bytes) (s : S) → AllApplied l s → Rests s (migrate_files db l s)
  unfolding migrate_files
  migrate_files-Rests [] s h = (refl, refl)
  migrate_files-Rests (n ∷ l) s h = Post-bind _ _ (migrate_file db n) _ s (
      Post-mono _ _ _ _ (migrate_file db n s) (migrate_file-Rests n s h.0)
        (λ _ t (same, quiet).
          Post-mono _ _ _ _ (migrate_files db l t)
            (migrate_files-Rests l t
              (All-mono _ _ l (λ m d. ap (λ (f : Stored). f.versions m) same ∙ d) h.1))
            (λ _ u (e, q). (e ∙ same, q ∙ quiet)) (λ _ u (e, q). (e ∙ same, q ∙ quiet)))
        (λ _ t r. r))

  -- What a run of the files gives, `Migrate` gives.
  module _ (P Q : S → Type 0)
      (stable : (t u : S) → Same db laws t u → (P t → P u) × (Q t → Q u)) where
    defer_lem :
        (cleanup : S → S)
        → ((t : S) → Same db laws t (cleanup t))
        → (m : Act S (Unit {0})) (s : S) → Post (m s) (λ _ t. P t) (λ _ t. Q t)
        → Post (defer cleanup m s) (λ _ t. P t) (λ _ t. Q t)
    defer_lem cleanup clean m s h = Post-move _ _ (m s) cleanup (
        Post-mono _ _ _ _ (m s) h (λ _ t p. (stable t (cleanup t) (clean t)).0 p)
          (λ _ t q. (stable t (cleanup t) (clean t)).1 q))

    around :
        (s : S)
        → Q s
        → ((t : S)
            → Same db laws s t
            → Post (migrate_files db (sort_texts laws.files) t) (λ _ u. P u) (λ _ u. Q u))
        → Post (migrate db s) (λ _ t. P t) (λ _ t. Q t)
    unfolding migrate migrate_connected migrate_locked
    around s q run = Post-bind _ _ db.acquire _ s (
        Post-mono _ _ _ _ (db.acquire s) (laws.acquiring s)
          (λ _ t e. defer_lem db.release laws.releasing (migrate_connected db) t (
            Post-bind _ _ db.lock _ t (
              Post-mono _ _ _ _ (db.lock t) (laws.locking t)
                (λ _ u f. defer_lem db.unlock laws.unlocking (migrate_locked db) u (
                  Post-bind _ _ db.create_table _ u (
                    Post-mono _ _ _ _ (db.create_table u) (laws.creating u)
                      (λ _ v g. Post-bind _ _ db.glob _ v (
                        Post-mono _ _ _ _ (db.glob v) (laws.globbing v)
                          (λ l x (is, h, k).
                            rw is (run x (h ∙ (g.0 ∙ (f.0 ∙ e.0)), k ∙ (g.1 ∙ (f.1 ∙ e.1)))))
                          (λ _ x h.
                            (stable s x (h.0 ∙ (g.0 ∙ (f.0 ∙ e.0)), h.1 ∙ (g.1 ∙ (f.1 ∙ e.1)))).1
                              q)))
                      (λ _ v g. (stable s v (g.0 ∙ (f.0 ∙ e.0), g.1 ∙ (f.1 ∙ e.1))).1 q))))
                (λ _ u f. (stable s u (f.0 ∙ e.0, f.1 ∙ e.1)).1 q))))
          (λ _ t e. (stable s t e).1 q))

  Same-AllApplied : (l : List Bytes) (t u : S) → Same db laws t u → AllApplied l t → AllApplied l u
  Same-AllApplied l t u e h = All-mono _ _ l (λ m d. ap (λ (f : Stored). f.versions m) e.0 ∙ d) h

  -- The files are applied, and each was run.
  abbrev pub AllRun : S → Type 0
  AllRun s = All (λ n. (applied db laws s n ≡ true) × (ran db laws s n ≡ true)) laws.files

  migrate_applies :
      (s : S)
      → HasRun db laws s
      → Post (migrate db s) (λ _ t. AllApplied laws.files t × HasRun db laws t) (λ _ _. Unit {0})
  migrate_applies s good =
      around (λ t. AllApplied laws.files t × HasRun db laws t) (λ _. Unit {0})
        (λ t u e. (
          λ (all, run). (Same-AllApplied laws.files t u e all, (same_Grows db laws t u e.0).1 run),
          λ x. x,
        ))
        s tt
        (λ t e.
          Post-mono _ _ _ _ (migrate_files db (sort_texts laws.files) t)
            (migrate_files_lem (sort_texts laws.files) t)
            (λ _ u (all, grown). (
              sort_texts-All (λ n. applied db laws u n ≡ true) laws.files all,
              grown.1 ((same_Grows db laws s t e.0).1 good),
            ))
            (λ _ _ _. tt))

  migrate_rests :
      (s : S)
      → AllApplied laws.files s
      → Post (migrate db s) (λ _ t. Same db laws s t) (λ _ t. Same db laws s t)
  migrate_rests s h =
      around (Same db laws s) (Same db laws s)
        (λ t u e. ((λ (a, b). (e.0 ∙ a, e.1 ∙ b)), (λ (a, b). (e.0 ∙ a, e.1 ∙ b)))) s (refl, refl)
        (λ t e.
          Post-mono _ _ _ _ (migrate_files db (sort_texts laws.files) t)
            (migrate_files-Rests (sort_texts laws.files) t (
              All-sort_texts (λ n. applied db laws t n ≡ true) laws.files
                (Same-AllApplied laws.files s t e h)))
            (λ _ u f. (f.0 ∙ e.0, f.1 ∙ e.1)) (λ _ u f. (f.0 ∙ e.0, f.1 ∙ e.1)))

  -- On a database whose transactions keep their promise, on the same files with the same contents
  -- at every run, and from a state in which the script of every applied version was executed in a
  -- committed transaction: once `Migrate` has succeeded, every file is applied and its script was
  -- executed in a committed transaction, and a later run, whether it succeeds or not, executes no
  -- script and changes no version.
  pub migrate_once :
      (s s₁ : S)
      → HasRun db laws s
      → migrate db s ≡ ret tt s₁
      → AllRun s₁
        × Post
            (migrate db s₁)
            (λ _ t. (laws.stored t ≡ laws.stored s₁) × (laws.executed t ≡ laws.executed s₁))
            (λ _ t. (laws.stored t ≡ laws.stored s₁) × (laws.executed t ≡ laws.executed s₁))
  migrate_once s s₁ good e =
      let (all, run) = Post-ret _ _ (migrate db s) tt s₁ (migrate_applies s good) e in
      (All-mono _ _ laws.files (λ n h. (h, run n h)) all, migrate_rests s₁ all)
