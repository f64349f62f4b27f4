-- ===== src/Postgres/Adding.antt =====
-- link_repository.go: Insert.
use youpass_share_service.Base.{
  Bool-cases, Bytes, Int64, List, Option-cases, ap, eq_of_bytes_eq, inl, inr, none, refl, subst,
  sym, ◌==◌, ◌∙◌, ◌∷◌, ◌≡◌, ◌≢◌, ◌⊎◌, nat_eq, bytes_eq_instance,
}
use youpass_share_service.Domain.Error.{already_shared, duplicate_code}
use youpass_share_service.Domain.Link.{Link, Time}
use youpass_share_service.Outcome.{Post}
use youpass_share_service.Share.Contract.{Holds, IsFault, IsLive, Shares, write}
use youpass_share_service.Postgres.{
  InsertError, Statements, active_resource, insert_row, other, unique_violation,
}
use youpass_share_service.Postgres.Rows.{Among, Clash, IsKeyed, row_at, row_at-Among, row_at-none}
use youpass_share_service.Postgres.Laws.{StatementLaws, new_row, shares_row_iff}
use youpass_share_service.Postgres.Table.{row_of, row_table, same_table}

module _ {S : Type 0} (db : Statements S) (laws : StatementLaws db) where
  new-Clash :
      (l : Link) (s s' : S) (row : Link)
      → laws.rows s' ≡ row ∷ laws.rows s
      → (m : Link) → Among m (laws.rows s)
      → ¬ Clash row m
  new-Clash l s s' row e = (subst IsKeyed e (laws.keyed s')).0

  insert_cases :
      (l : Link) (s : S) (r : InsertError ⊎ (Int64 × Time))
      → IsLive l
      → (db.insert l s).0 ≡ r
      → Post
          (insert_row db l s)
          (λ l' s'.
            (row_table db laws s l.code ≡ none)
            × (¬ (
                (c : Bytes) × Holds (row_table db laws s) c (Shares l.resource_type l.resource_id)))
            × ((id : Int64) × (t : Time) × (l' ≡ record l { id = id; created_at = t }))
            × (row_table db laws s' ≡ write (row_table db laws s) l.code l')
            × Unit {0})
          (λ e s'.
            (((e ≡ duplicate_code) × (row_table db laws s l.code ≢ none))
              ⊎ (((e ≡ already_shared)
                    × ((c : Bytes) × Holds
                          (row_table db laws s)
                          c
                          (Shares l.resource_type l.resource_id)))
                  ⊎ IsFault e))
            × (row_table db laws s' ≡ row_table db laws s)
            × Unit {0})
  unfolding insert_row
  insert_cases l s (inl (unique_violation name)) live e =
      elim (Bool-cases (name == active_resource)) [
        | inl q ↦
            let ((m, (p, t)), same) =
              laws.resource_refused l s
                (e ∙ ap (λ k. inl (unique_violation k)) (eq_of_bytes_eq name active_resource q)) in
            rw (e, q, insert_row)
              (
                inr (
                    inl (
                      refl,
                      (
                        m.code,
                        (
                          m,
                          row_of db laws s m.code m p refl,
                          (shares_row_iff l.resource_type l.resource_id m).0 t,
                        ),
                      ),
                    )),
                same_table db laws same,
                tt,
              )
        | inr q ↦
            let ((m, (p, t)), same) = laws.code_refused l s name e q in
            rw (e, q, insert_row)
              (
                inl (
                  refl,
                  λ at. row_at-none (laws.rows s) l.code m at p (eq_of_bytes_eq m.code l.code t),
                ),
                same_table db laws same,
                tt,
              )
      ]
  insert_cases l s (inl (other x)) live e =
      let (f, same) = laws.failed l s x e in
      rw (e, insert_row) (inr (inr f), same_table db laws same, tt)
  insert_cases l s (inr (id, at)) live e =
      let added = laws.inserted l s id at e in
      let clash = new-Clash l s (db.insert l s).1 (new_row l id at) added in
      rw (e, insert_row)
        (
          elim (Option-cases (row_table db laws s l.code)) [
            | inl n ↦ n
            | inr (m, em) ↦
                let (p, is) = row_at-Among (laws.rows s) l.code m em in
                absurd (clash m p (inl (sym is)))
          ],
          (λ (c, (m, em, sh)). clash m (row_at-Among (laws.rows s) c m em).0 (inr (sh, live))),
          (id, at, refl),
          ap (λ (ls : List Link). row_at ls) added,
          tt,
        )

  pub insert_row_lem :
      (l : Link) (s : S)
      → IsLive l
      → Post
          (insert_row db l s)
          (λ l' s'.
            (row_table db laws s l.code ≡ none)
            × (¬ (
                (c : Bytes) × Holds (row_table db laws s) c (Shares l.resource_type l.resource_id)))
            × ((id : Int64) × (t : Time) × (l' ≡ record l { id = id; created_at = t }))
            × (row_table db laws s' ≡ write (row_table db laws s) l.code l')
            × Unit {0})
          (λ e s'.
            (((e ≡ duplicate_code) × (row_table db laws s l.code ≢ none))
              ⊎ (((e ≡ already_shared)
                    × ((c : Bytes) × Holds
                          (row_table db laws s)
                          c
                          (Shares l.resource_type l.resource_id)))
                  ⊎ IsFault e))
            × (row_table db laws s' ≡ row_table db laws s)
            × Unit {0})
  insert_row_lem l s live = insert_cases l s (db.insert l s).0 live refl
