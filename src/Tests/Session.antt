-- ===== src/Tests/Session.antt =====
-- A session over the engine in memory.
use aura_sql.Prelude.{none}
use aura_sql.Core.{Statement, delete}
use aura_sql.Memstore.{Memstore, new_memstore}
use aura_sql.Session.{Session}
use aura_sql.Session.Moves.{Moves}
use aura_sql.Tests.Memstore.{people}

abbrev fresh : Session Memstore
fresh = record { engine = new_memstore; cur = none }

abbrev delete_all : Statement
delete_all = delete people none
