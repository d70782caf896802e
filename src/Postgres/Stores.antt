-- ===== src/Postgres/Stores.antt =====
-- The stores of the providers over PostgreSQL (pkg/providers/*/persistence/postgres.go).
pub mod Schedules
pub mod Webhooks
pub mod KafkaSources
use operion.Base.{ℕ, eqb, String, Bool, ◌==◌, if◌then◌else◌, List, [], ◌∷◌}
use operion.Models.Event.{io_failed}
use operion.Models.Database.{Database}
use operion.Store.{M, ◌>>=◌, ◌>>◌, io}
use operion.Postgres.{exec}

-- `INSERT … ON CONFLICT (id) DO UPDATE`, where `update` puts the columns of the new row into the
-- old one.
module _ {A : Type 0} (id_of : A → String) (update : A → A → A) where
  unfoldable pub upsert : A → List A → List A
  upsert x [] = x ∷ []
  upsert x (y ∷ rows) = if id_of y == id_of x then update y x ∷ rows else y ∷ upsert x rows

-- A zero time becomes the present one.
abbrev pub time_or : ℕ → ℕ → ℕ
time_or t now = if eqb t 0 then now else t

-- A `DELETE` whose number of deleted rows is read, for the log only.
abbrev pub delete_where : (Database → Database) → M (Unit {0})
delete_where f = do exec (λ now d. f d); io io_failed
