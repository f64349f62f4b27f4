-- ===== src/Postgres/Changes.antt =====
-- link_repository.go: UpdateStatus and SoftDelete.
use youpass_share_service.Base.{
  Bool-cases, Bytes, Int64, List, ap, eqb, eqb_iff, inl, inr, refl, some, sym, true≢false, ◌∙◌, ◌≡◌,
  nat_eq, bytes_eq_instance,
}
use youpass_share_service.Domain.Error.{link_not_found}
use youpass_share_service.Domain.Link.{Link, Status, Time}
use youpass_share_service.Outcome.{Post, Post-bind, Post-mono}
use youpass_share_service.Share.Ports.{}
use youpass_share_service.Share.Contract.{Holds, Misses, Owns, Table, write}
use youpass_share_service.Postgres.{Statements, delete_row, scan, scan_link}
use youpass_share_service.Postgres.Rows.{
  change, change_none, matching_none, matching_some, owned_row, row_at, row_at-change,
}
use youpass_share_service.Postgres.Laws.{Row, StatementLaws, owned_row_iff, scan_lem}
use youpass_share_service.Postgres.Table.{Misses-owned, owned_at, owned_held, row_table, same_table}

module _ {S : Type 0} (db : Statements S) (laws : StatementLaws db) where
  -- What an UPDATE of the owned row of a code does to the table.
  owned_changed :
      (s : S) (c : Bytes) (owner : Int64) (f : Link → Link) (m : Link)
      → ((x : Link) → (f x).code ≡ x.code)
      → Row (laws.rows s) (owned_row c owner) m
      → ◌≡◌ {A = Table}
          (row_at (change (owned_row c owner) f (laws.rows s)))
          (write (row_table db laws s) c (f m))
  owned_changed s c owner f m keeps (p, q) =
      let e = ((owned_row_iff c owner m).0 q).0 in
      row_at-change (owned_row c owner) f keeps (laws.rows s) m (laws.keyed s) p q
        (λ x t. ((owned_row_iff c owner x).0 t).0 ∙ sym e)
      ∙ ap (λ d. write (row_table db laws s) d (f m)) e

  pub update_lem :
      (c : Bytes) (owner : Int64) (st : Status) (s : S)
      → Post
          (scan_link db (db.update_status c owner st) s)
          (λ l s'.
            Holds (row_table db laws s) c (λ m. Owns owner m × (l ≡ record m { status = st }))
            × (row_table db laws s' ≡ write (row_table db laws s) c l)
            × Unit {0})
          (λ e s'.
            Misses link_not_found e (Holds (row_table db laws s) c (Owns owner))
            × (row_table db laws s' ≡ row_table db laws s)
            × Unit {0})
  unfolding scan_link
  update_lem c owner st s =
      Post-mono _ _ _ _ (scan db.no_rows link_not_found (db.update_status c owner st s))
        (scan_lem db.no_rows link_not_found ((l : Link) × Row (laws.rows s) (owned_row c owner) l)
          (λ l s'.
            (m : Link) × Row (laws.rows s) (owned_row c owner) m
            × (l ≡ record m { status = st })
            × (laws.rows s'
                ≡ change (owned_row c owner) (λ x. record x { status = st }) (laws.rows s)))
          (λ s'. laws.rows s' ≡ laws.rows s) (db.update_status c owner st s)
          (laws.status_updated c owner st s))
        (λ l s' (m, (p, q), is, e).
          let r : Row (laws.rows s) (owned_row c owner) m = (p, q) in
          let (at, owns) = owned_at db laws s c owner m r in
          (
            (m, at, (owns, is)),
            ap (λ (ls : List Link). row_at ls) e
                ∙ (owned_changed s c owner (λ x. record x { status = st }) m (λ x. refl) r
                    ∙ ap (write (row_table db laws s) c) (sym is)),
            tt,
          ))
        (λ x s' (h, e). (Misses-owned db laws s c owner x h, same_table db laws e, tt))

  pub delete_row_lem :
      (c : Bytes) (owner : Int64) (s : S)
      → Post
          (delete_row db c owner s)
          (λ _ s'.
            (t : Time) × (Holds (row_table db laws s) c (λ m.
              Owns owner m
              × (row_table db laws s'
                  ≡ write (row_table db laws s) c (record m { deleted_at = some t }))))
            × Unit {0})
          (λ e s'.
            Misses link_not_found e (Holds (row_table db laws s) c (Owns owner))
            × (row_table db laws s' ≡ row_table db laws s)
            × Unit {0})
  unfolding delete_row
  delete_row_lem c owner s = Post-bind _ _ (db.mark_deleted c owner) _ s (
      Post-mono _ _ _ _ (db.mark_deleted c owner s) (laws.deleted_marked c owner s)
        (λ n s' (t, count, e). elim (Bool-cases (eqb n 0)) [
          | inl q ↦ rw (q) (
            inl (
              refl,
              λ h.
                  let (m, (p, takes)) = owned_held db laws s c owner h in
                  matching_none (owned_row c owner) (laws.rows s) m (sym count ∙ (eqb_iff n 0).0 q)
                    p takes,
            ),
            same_table db laws (
                e
                ∙ change_none (owned_row c owner) _ (laws.rows s) (sym count ∙ (eqb_iff n 0).0 q)),
            tt,
          )
          | inr q ↦ rw (q) (
              let (m, p, takes) =
                matching_some (owned_row c owner) (laws.rows s)
                  (λ z. true≢false (sym ((eqb_iff n 0).1 (count ∙ z)) ∙ q)) in
              let r : Row (laws.rows s) (owned_row c owner) m = (p, takes) in
              let (at, owns) = owned_at db laws s c owner m r in
              (
                t,
                (
                  m,
                  at,
                  (
                    owns,
                    ap (λ (ls : List Link). row_at ls) e
                        ∙ owned_changed s c owner (λ x. record x { deleted_at = some t }) m
                            (λ x. refl) r,
                  ),
                ),
                tt,
              ))
        ])
        (λ x s' (f, e). (inr f, same_table db laws e, tt)))
