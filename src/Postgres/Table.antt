-- ===== src/Postgres/Table.antt =====
-- link_repository.go: the rows as the table of the contract of ports.go.
use youpass_share_service.Base.{Bytes, Int64, List, ap, inl, inr, some, subst, sym, ◌∙◌, ◌≡◌}
use youpass_share_service.Domain.Error.{Error, link_not_found}
use youpass_share_service.Domain.Link.{Link}
use youpass_share_service.Outcome.{}
use youpass_share_service.Share.Ports.{}
use youpass_share_service.Share.Contract.{Holds, IsSound, Misses, Owns, Table}
use youpass_share_service.Postgres.{Statements}
use youpass_share_service.Postgres.Rows.{
  Among, keyed_once, owned_row, row_at, row_at-Among, row_at-code,
}
use youpass_share_service.Postgres.Laws.{Row, StatementLaws, owned_row_iff}

module _ {S : Type 0} (db : Statements S) (laws : StatementLaws db) where
  abbrev pub row_table : S → Table
  row_table s = row_at (laws.rows s)

  -- The row that a code has.
  pub row_of :
      (s : S) (c : Bytes) (l : Link) → Among l (laws.rows s) → l.code ≡ c → row_table s c ≡ some l
  row_of s c l p e =
      subst (λ d. row_table s d ≡ some l) e (row_at-code (laws.rows s) l (laws.keyed s) p)

  pub same_table : {s s' : S} → laws.rows s' ≡ laws.rows s → row_table s' ≡ row_table s
  same_table e = ap (λ (ls : List Link). row_at ls) e

  pub row_table-IsSound : (s : S) → IsSound (row_table s)
  row_table-IsSound s = record {
    keyed = λ c l e. (row_at-Among (laws.rows s) c l e).1;
    unique = λ c d l m el em sh live.
        let (p, cl) = row_at-Among (laws.rows s) c l el in
        let (q, dm) = row_at-Among (laws.rows s) d m em in
        let same =
          keyed_once (laws.rows s) l m (laws.keyed s) p q
            (inr ((sym sh.0, sym sh.1, live), sh.2)) in
        sym cl ∙ (ap (λ (x : Link). x.code) same ∙ dm);
  }

  pub owned_at :
      (s : S) (c : Bytes) (owner : Int64) (l : Link)
      → Row (laws.rows s) (owned_row c owner) l
      → (row_table s c ≡ some l) × Owns owner l
  owned_at s c owner l (p, q) =
      let (e, owns) = (owned_row_iff c owner l).0 q in (row_of s c l p e, owns)

  pub owned_held :
      (s : S) (c : Bytes) (owner : Int64)
      → Holds (row_table s) c (Owns owner)
      → (l : Link) × Row (laws.rows s) (owned_row c owner) l
  owned_held s c owner (l, at, owns) =
      let (p, e) = row_at-Among (laws.rows s) c l at in
      (l, (p, (owned_row_iff c owner l).1 (e, owns)))

  pub Misses-owned :
      (s : S) (c : Bytes) (owner : Int64) (e : Error)
      → Misses link_not_found e ((l : Link) × Row (laws.rows s) (owned_row c owner) l)
      → Misses link_not_found e (Holds (row_table s) c (Owns owner))
  Misses-owned s c owner e (inl (same, none')) = inl (same, λ h. none' (owned_held s c owner h))
  Misses-owned s c owner e (inr f) = inr f
