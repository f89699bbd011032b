-- ===== src/Session/Moves.antt =====
-- The states of a session: in autocommit mode, or in one open transaction.
use aura_sql.Prelude.{ℕ, ◌≡◌, Bool, true, false, Option, none, some}
use aura_sql.Errors.{Error, Result, ok, err}
use aura_sql.Core.{Statement, begin, commit, rollback}
use aura_sql.Core.Engine.{StorageEngine}
use aura_sql.Executor.Dml.{Output}
use aura_sql.Session.{Session, is_write_conflict}

-- The statements that the session runs itself.
abbrev pub is_control : Statement → Bool
is_control begin = true
is_control commit = true
is_control rollback = true
is_control _ = false

-- The open transaction before a statement, how the statement ends, and the open transaction after it.
pub data Moves : Statement → Option ℕ → Result Output → Option ℕ → Type 0 where
  begins : (t : ℕ) (out : Output) → Moves begin none (ok out) (some t)
  begin_fails : (e : Error) → Moves begin none (err e) none
  begin_refused : (t : ℕ) (e : Error) → Moves begin (some t) (err e) (some t)
  commits : (t : ℕ) (r : Result Output) → Moves commit (some t) r none
  commit_refused : (e : Error) → Moves commit none (err e) none
  rolls_back : (t : ℕ) (r : Result Output) → Moves rollback (some t) r none
  rollback_refused : (e : Error) → Moves rollback none (err e) none
  autocommits :
      (stmt : Statement) (r : Result Output) → is_control stmt ≡ false → Moves stmt none r none
  runs :
      (stmt : Statement) (t : ℕ) (out : Output)
      → is_control stmt ≡ false
      → Moves stmt (some t) (ok out) (some t)
  fails :
      (stmt : Statement) (t : ℕ) (e : Error)
      → is_control stmt ≡ false
      → is_write_conflict e ≡ false
      → Moves stmt (some t) (err e) (some t)
  conflicts :
      (stmt : Statement) (t : ℕ) (e : Error)
      → is_control stmt ≡ false
      → is_write_conflict e ≡ true
      → Moves stmt (some t) (err e) none

module _ {S : Type 0} (eng : StorageEngine S) where
  abbrev MovesTo : Statement → Session S → Session S × Result Output → Type 0
  MovesTo stmt s (s', r) = Moves stmt s.cur r s'.cur

  abbrev session : S → Option ℕ → Session S
  session e cur = record { engine = e; cur = cur }
