-- ===== src/Postgres/Keeping.antt =====
-- link_repository.go and the contract of ports.go.
use youpass_share_service.Base.{}
use youpass_share_service.Domain.Error.{}
use youpass_share_service.Domain.Link.{}
use youpass_share_service.Outcome.{}
use youpass_share_service.Share.Ports.{}
use youpass_share_service.Share.Contract.{RepositoryLaws}
use youpass_share_service.Postgres.{Statements, postgres_links}
use youpass_share_service.Postgres.Rows.{}
use youpass_share_service.Postgres.Laws.{StatementLaws}
use youpass_share_service.Postgres.Table.{row_table, row_table-IsSound}
use youpass_share_service.Postgres.Reads.{find_code_lem, find_owned_lem, find_resource_lem}
use youpass_share_service.Postgres.Changes.{delete_row_lem, update_lem}
use youpass_share_service.Postgres.Adding.{insert_row_lem}

module _ {S : Type 0} (db : Statements S) (laws : StatementLaws db) where
  -- The pgstore repository keeps the contract of ports.go.
  abbrev pub postgres_links_lawful : RepositoryLaws (postgres_links db)
  postgres_links_lawful = record {
    Inv = λ _. Unit {0};
    table = row_table db laws;
    sound = λ s _. row_table-IsSound db laws s;
    find_by_code_lem = λ c s _. find_code_lem db laws c s;
    find_by_resource_lem = λ rt id s _. find_resource_lem db laws rt id s;
    find_owned_lem = λ c owner s _. find_owned_lem db laws c owner s;
    update_status_lem = λ c owner st s _. update_lem db laws c owner st s;
    soft_delete_lem = λ c owner s _. delete_row_lem db laws c owner s;
    insert_lem = λ l s live _. insert_row_lem db laws l s live;
  }
