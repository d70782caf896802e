-- ===== src/Store.antt =====
-- The state that the services share, and operations on it that may fail.
--
-- The file persistence (pkg/persistence/file) keeps a folder of JSON files for each kind of record;
-- a folder is a dictionary from a file's name, without its suffix, to the record that was last written
-- to it in full. A write that fails may leave a damaged file: its later reads are among the operations
-- that fail.
-- A value is taken in the form in which JSON gives it back, so that encoding and decoding a record
-- lose nothing. An operation of the operating system or of the event bus may fail, and so may the
-- encoding or decoding that goes with it: `faults` says for each coming one whether it does. One
-- request sees one time, `now`.
pub mod Ensures
pub mod Keeps
pub mod Preserves
pub mod Workflows
pub mod Versions
pub mod Path
pub mod Contexts
pub mod Inputs
pub mod Nodes
pub mod Silent
use operion.Base.{ℕ, String, Bool, true, false, List, [], ◌∷◌, ◌++◌, Dict, Option, none, some}
use operion.Models.Workflow.{Workflow}
use operion.Models.Execution.{ExecutionContext, NodeInputState}
use operion.Models.Event.{Event, Error}
use operion.Models.Source.{Sources}
use operion.Models.Database.{Database}

pub record World : Type 0 where
  -- The folder that the file persistence was given.
  pub root : String
  pub workflows : Dict Workflow
  pub contexts : Dict ExecutionContext
  pub input_states : Dict NodeInputState
  -- What has been published, with its key; the oldest first.
  pub bus : List (String × Event)
  pub sources : Sources
  -- The database of the PostgreSQL persistence.
  pub database : Database
  pub now : ℕ
  -- How many identifiers have been generated.
  pub ids : ℕ
  pub faults : List Bool

pub data Outcome (A : Type 0) : Type 0 where
  done : A → World → Outcome A
  fail : Error → World → Outcome A

pub data Result (A : Type 0) : Type 0 where
  ok : A → Result A
  err : Error → Result A

abbrev pub M : Type 0 → Type 0
M A = World → Outcome A

infixl 5 ◌>>=◌ ◌>>◌
abbrev pub ◌>>=◌ : {A B : Type 0} → M A → (A → M B) → M B
◌>>=◌ m f w = elim (m w) [ done a w' ↦ f a w' | fail e w' ↦ fail e w' ]

abbrev pub ◌>>◌ : {B : Type 0} → M (Unit {0}) → M B → M B
m >> k = m >>= λ _. k

abbrev pub pure : {A : Type 0} → A → M A
pure a w = done a w

abbrev pub throw : {A : Type 0} → Error → M A
throw e w = fail e w

-- `x, err := m`, where the code goes on after an error.
abbrev pub attempt : {A : Type 0} → M A → M (Result A)
attempt m w = elim (m w) [ done a w' ↦ done (ok a) w' | fail e w' ↦ done (err e) w' ]

abbrev pub gets : {A : Type 0} → (World → A) → M A
gets f w = done (f w) w

abbrev pub modify : (World → World) → M (Unit {0})
modify f w = done tt (f w)

-- `if x == nil { return e }`.
abbrev pub require : {A : Type 0} → Error → Option A → M A
require e none = throw e
require e (some a) = pure a

-- `if err != nil { return err }` after a check that returns only an error.
abbrev pub check : Option Error → M (Unit {0})
check none = pure tt
check (some e) = throw e

unfoldable pub io_step : List Bool → Error → M (Unit {0})
io_step [] e w = done tt w
io_step (true ∷ fs) e w = fail e (record w { faults = fs })
io_step (false ∷ fs) e w = done tt (record w { faults = fs })

-- An operation outside the program, which fails with `e` if the next fault says so.
unfoldable pub io : Error → M (Unit {0})
unfolding io_step
io e w = io_step w.faults e w
