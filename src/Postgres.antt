-- ===== src/Postgres.antt =====
-- The PostgreSQL persistence (pkg/persistence/postgresql): statements and transactions.
--
-- A statement is written as the function on the tables that its SQL says. It may fail whenever the
-- next fault says so, be it that the database cannot be reached or that a value does not fit its
-- column; an identifier is in the form in which the database gives it back.
pub mod Effects
pub mod Undisturbed
pub mod Workflows
pub mod Saving
pub mod Versions
pub mod Nodes
pub mod Connections
pub mod Contexts
pub mod Inputs
pub mod Stores
pub mod Migrations
use operion.Base.{ℕ, suc, Bool, true, false, List, [], ◌∷◌, Option, none, some}
use operion.Models.Event.{Error, io_failed, constraint_failed}
use operion.Models.Database.{Database}
use operion.Store.{World, done, fail, M, ◌>>=◌, ◌>>◌, pure, io, gets, modify, check}

-- `ORDER BY … ASC` and `ORDER BY … DESC` of rows with a key; rows with the same key come in any
-- order that the database chooses.
pub record Sorting : Type 1 where
  pub ascending : {A : Type 0} → (A → ℕ) → List A → List A
  pub descending : {A : Type 0} → (A → ℕ) → List A → List A

-- A query.
abbrev pub select : {A : Type 0} → (Database → A) → M A
select f = do io io_failed; gets (λ w. f w.database)

abbrev pub with_database : Database → World → World
with_database d w = record w { database = d }

abbrev pub violated : Bool → Option Error
violated true = some constraint_failed
violated false = none

-- A statement that changes rows at a time, unless they violate a constraint.
unfoldable pub exec_unless : (ℕ → Database → Bool) → (ℕ → Database → Database) → M (Unit {0})
exec_unless violates f = do
  io io_failed
  v ← gets (λ w. violates w.now w.database)
  check (violated v)
  modify (λ w. with_database (f w.now w.database) w)

abbrev pub exec : (ℕ → Database → Database) → M (Unit {0})
exec f = exec_unless (λ now d. false) f

-- A statement whose number of changed rows is read; the result says whether `test` held before it.
unfoldable pub exec_counted : (Database → Bool) → (ℕ → Database → Database) → M Bool
exec_counted test f = do
  io io_failed
  matched ← gets (λ w. test w.database)
  modify (λ w. with_database (f w.now w.database) w)
  io io_failed
  pure matched

-- `QueryRowContext`: the first row.
abbrev pub first : {A : Type 0} → List A → Option A
first [] = none
first (x ∷ xs) = some x

-- `BeginTx`: the database as the others see it until the transaction is committed.
unfoldable pub begin : M Database
begin = do io io_failed; gets (λ w. w.database)

-- An error rolls the transaction back.
unfoldable pub or_rollback : {A : Type 0} → Database → M A → M A
or_rollback before m w = elim (m w) [
  | done a w' ↦ done a w'
  | fail e w' ↦ fail e (with_database before w')
]

-- An error leaves the transaction open.
unfoldable pub or_abandon : {A : Type 0} → Database → M A → M A
or_abandon before m w = elim (m w) [
  | done a w' ↦ done a w'
  | fail e w' ↦ fail e (with_database (record before { abandoned = suc before.abandoned }) w')
]

-- `Commit`: one that fails has no effect.
unfoldable pub commit : Database → M (Unit {0})
commit before = or_rollback before (io io_failed)
