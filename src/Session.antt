-- ===== src/Session.antt =====
-- executor/session.go: a connection, which runs each statement in the open transaction or in one of
-- its own.
pub mod Moves
pub mod Atomic
use aura_sql.Prelude.{
  ℕ, Bool, true, false, ◌||◌, Option, none, some, String, bytes, str_eq, if◌then◌else◌,
}
use aura_sql.Errors.{
  Error, err_write_conflict, err_serialization_conflict, errorf, wrap, wrapped, panic, Result, ok,
  err, ◌>>=◌, wrapping,
}
use aura_sql.Core.{
  Statement, create_table, create_index, insert, select, update, delete, begin, commit, rollback,
  explain, analyze,
}
use aura_sql.Core.Engine.{StorageEngine}
use aura_sql.Executor.{execute}
use aura_sql.Executor.Dml.{Output, affected}

-- The session over an engine whose state is `S`; `cur` is none in autocommit mode.
pub record Session (S : Type 0) : Type 0 where
  pub engine : S
  pub cur : Option ℕ

abbrev same_text : String → String → Bool
same_text s t = str_eq (bytes s) (bytes t)

-- `errors.Is` for either sentinel goes through `%w`. The comparisons of the message concern errors
-- without `%w`: the text of an error with it has a colon, and none of the three has one.
unfoldable pub is_write_conflict : Error → Bool
is_write_conflict err_write_conflict = true
is_write_conflict err_serialization_conflict = true
is_write_conflict (wrap p e) = is_write_conflict e
is_write_conflict (errorf s) =
    same_text s "write conflict"
    || (same_text s "write-write conflict"
        || same_text s "row modified by a concurrent transaction")
is_write_conflict panic = false

-- A panic leaves the function at once.
abbrev pub is_panic : Error → Bool
is_panic panic = true
is_panic _ = false

module _ {S : Type 0} (eng : StorageEngine S) where
  unfoldable pub exec_begin : Session S → Session S × Result Output
  exec_begin s = elim s.cur [
    | some t ↦ (s, err (errorf "already in a transaction"))
    | none ↦
        let (e, begun) = eng.begin s.engine in
        elim begun [
          | err x ↦ (record { engine = e; cur = none }, err (wrapped "begin transaction: %w" x))
          | ok t ↦ (record { engine = e; cur = some t }, ok (affected 0))
        ]
  ]

  unfoldable pub exec_commit : Session S → Session S × Result Output
  exec_commit s = elim s.cur [
    | none ↦ (s, err (errorf "no active transaction"))
    | some t ↦
        let (e, committed) = eng.commit t s.engine in
        (
          record { engine = e; cur = none },
          wrapping "commit transaction: %w" committed >>= λ _. ok (affected 0),
        )
  ]

  unfoldable pub exec_rollback : Session S → Session S × Result Output
  exec_rollback s = elim s.cur [
    | none ↦ (s, err (errorf "no active transaction"))
    | some t ↦
        let (e, undone) = eng.rollback t s.engine in
        (
          record { engine = e; cur = none },
          wrapping "rollback transaction: %w" undone >>= λ _. ok (affected 0),
        )
  ]

  -- The statement in the open transaction `t`, which a write conflict ends.
  unfoldable pub exec_in : ℕ → Statement → S → Session S × Result Output
  unfolding is_write_conflict
  exec_in t stmt e =
      let (e', res) = execute eng t stmt e in
      elim res [
        | ok out ↦ (record { engine = e'; cur = some t }, ok out)
        | err x ↦
            if is_write_conflict x
            then (
              record { engine = (eng.rollback t e').0; cur = none },
              err (wrapped "write conflict: %w" x),
            )
            else (record { engine = e'; cur = some t }, err x)
      ]

  -- The end of a statement in a transaction of its own.
  unfoldable pub finish_autocommit : ℕ → S → Result Output → Session S × Result Output
  finish_autocommit t e (err x) =
      let e' = if is_panic x then e else (eng.rollback t e).0 in
      (record { engine = e'; cur = none }, err (wrapped "execute in autocommit: %w" x))
  finish_autocommit t e (ok out) =
      let (e', committed) = eng.commit t e in
      (
        record { engine = e'; cur = none },
        wrapping "commit autocommit transaction: %w" committed >>= λ _. ok out,
      )

  -- The statement in a transaction of its own.
  unfoldable pub exec_autocommit : Statement → S → Session S × Result Output
  unfolding finish_autocommit
  exec_autocommit stmt e =
      let (e', begun) = eng.begin e in
      elim begun [
        | err x ↦
            (record { engine = e'; cur = none }, err (wrapped "begin autocommit transaction: %w" x))
        | ok t ↦ let (e'', res) = execute eng t stmt e' in finish_autocommit t e'' res
      ]

  unfoldable pub exec_statement : Statement → Session S → Session S × Result Output
  unfolding exec_in exec_autocommit
  exec_statement stmt s = elim s.cur [
    | some t ↦ exec_in t stmt s.engine
    | none ↦ exec_autocommit stmt s.engine
  ]

  unfoldable pub exec : Statement → Session S → Session S × Result Output
  unfolding exec_begin exec_commit exec_rollback exec_statement
  exec begin s = exec_begin s
  exec commit s = exec_commit s
  exec rollback s = exec_rollback s
  exec stmt s = exec_statement stmt s
