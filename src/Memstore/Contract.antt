-- ===== src/Memstore/Contract.antt =====
-- memstore/memstore.go as the `StorageEngine` of the executor.
use aura_sql.Prelude.{some}
use aura_sql.Errors.{ok}
use aura_sql.Core.Engine.{StorageEngine}
use aura_sql.Memstore.{
  Memstore, begin, commit, rollback, create_table, get_schema, insert, update, delete,
}
use aura_sql.Memstore.Reads.{scan, create_index, has_index, seek_index}

-- The engine as the executor sees it.
unfoldable pub memstore_engine : StorageEngine Memstore
memstore_engine = record {
  begin = begin;
  commit = λ t e. (commit t e, ok tt);
  rollback = λ t e. (rollback t e, ok tt);
  create_table = λ t. create_table;
  create_index = λ t. create_index;
  get_schema = get_schema;
  has_index = has_index;
  insert = λ t. insert (some t);
  update = λ t. update (some t);
  delete = λ t. delete (some t);
  scan = λ e t name. scan (some t) name e;
  seek_index = λ e t table column key. seek_index (some t) table column key e;
}
