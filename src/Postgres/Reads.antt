-- ===== src/Postgres/Reads.antt =====
-- link_repository.go: FindByCode, FindByResource and FindOwned.
use youpass_share_service.Base.{
  Bytes, Int64, Option-cases, bytes_eq_iff, eq_of_bytes_eq, inl, inr, none, refl, some, ◌==◌, ◌≡◌,
  ◌⊎◌, nat_eq, bytes_eq_instance,
}
use youpass_share_service.Domain.Error.{link_not_found}
use youpass_share_service.Domain.Link.{ResourceType}
use youpass_share_service.Outcome.{Post, Post-mono}
use youpass_share_service.Share.Ports.{}
use youpass_share_service.Share.Contract.{Holds, IsFault, Misses, Owns, Shares}
use youpass_share_service.Postgres.{Statements, scan, scan_link}
use youpass_share_service.Postgres.Rows.{owned_row, row_at-Among, shares_row}
use youpass_share_service.Postgres.Laws.{StatementLaws, select_lem, shares_row_iff}
use youpass_share_service.Postgres.Table.{Misses-owned, owned_at, row_of, row_table, same_table}

module _ {S : Type 0} (db : Statements S) (laws : StatementLaws db) where
  pub find_code_lem :
      (c : Bytes) (s : S)
      → Post
          (scan_link db (db.select_code c) s)
          (λ l s'.
            (row_table db laws s c ≡ some l)
            × (row_table db laws s' ≡ row_table db laws s)
            × Unit {0})
          (λ e s'.
            (((e ≡ link_not_found) × (row_table db laws s c ≡ none)) ⊎ IsFault e)
            × (row_table db laws s' ≡ row_table db laws s)
            × Unit {0})
  unfolding scan_link
  find_code_lem c s =
      Post-mono _ _ _ _ (scan db.no_rows link_not_found (db.select_code c s))
        (select_lem db.no_rows laws.rows (λ x. x.code == c) s (db.select_code c s)
          (laws.code_selected c s))
        (λ l s' ((p, q), e).
          (row_of db laws s c l p (eq_of_bytes_eq l.code c q), same_table db laws e, tt))
        (λ x s' (h, e). (
          elim h [
            | inl (same, none') ↦ elim (Option-cases (row_table db laws s c)) [
              | inl at ↦ inl (same, at)
              | inr (l, at) ↦
                  let (p, is) = row_at-Among (laws.rows s) c l at in
                  absurd (none' (l, (p, (bytes_eq_iff l.code c).1 is)))
            ]
            | inr f ↦ inr f
          ],
          same_table db laws e,
          tt,
        ))

  pub find_resource_lem :
      (rt : ResourceType) (id : Int64) (s : S)
      → Post
          (scan_link db (db.select_resource rt id) s)
          (λ l s'.
            (row_table db laws s l.code ≡ some l)
            × Shares rt id l
            × (row_table db laws s' ≡ row_table db laws s)
            × Unit {0})
          (λ e s'.
            Misses link_not_found e ((c : Bytes) × Holds (row_table db laws s) c (Shares rt id))
            × (row_table db laws s' ≡ row_table db laws s)
            × Unit {0})
  unfolding scan_link
  find_resource_lem rt id s =
      Post-mono _ _ _ _ (scan db.no_rows link_not_found (db.select_resource rt id s))
        (select_lem db.no_rows laws.rows (shares_row rt id) s (db.select_resource rt id s)
          (laws.resource_selected rt id s))
        (λ l s' ((p, q), e). (
          row_of db laws s l.code l p refl,
          (shares_row_iff rt id l).0 q,
          same_table db laws e,
          tt,
        ))
        (λ x s' (h, e). (
          elim h [
            | inl (same, none') ↦ inl (
              same,
              λ (c, (l, at, sh)).
                  none' (l, ((row_at-Among (laws.rows s) c l at).0, (shares_row_iff rt id l).1 sh)),
            )
            | inr f ↦ inr f
          ],
          same_table db laws e,
          tt,
        ))

  pub find_owned_lem :
      (c : Bytes) (owner : Int64) (s : S)
      → Post
          (scan_link db (db.select_owned c owner) s)
          (λ l s'.
            (row_table db laws s c ≡ some l)
            × Owns owner l
            × (row_table db laws s' ≡ row_table db laws s)
            × Unit {0})
          (λ e s'.
            Misses link_not_found e (Holds (row_table db laws s) c (Owns owner))
            × (row_table db laws s' ≡ row_table db laws s)
            × Unit {0})
  unfolding scan_link
  find_owned_lem c owner s =
      Post-mono _ _ _ _ (scan db.no_rows link_not_found (db.select_owned c owner s))
        (select_lem db.no_rows laws.rows (owned_row c owner) s (db.select_owned c owner s)
          (laws.owned_selected c owner s))
        (λ l s' (r, e).
          let (at, owns) = owned_at db laws s c owner l r in (at, owns, same_table db laws e, tt))
        (λ x s' (h, e). (Misses-owned db laws s c owner x h, same_table db laws e, tt))
