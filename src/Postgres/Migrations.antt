-- ===== src/Postgres/Migrations.antt =====
-- Migrations of the schema (pkg/persistence/sqlbase/migration.go).
pub mod Pending
pub mod Runs
use operion.Base.{
  ℕ, zero, Bool, ltb, eqb, any, true, false, if◌then◌else◌, List, [], ◌∷◌, ◌++◌, map,
}
use operion.Models.Event.{io_failed}
use operion.Models.Database.{Migration, Database}
use operion.Store.{M, ◌>>=◌, ◌>>◌, pure, io}
use operion.Postgres.{select, exec, exec_unless, begin, or_rollback}

abbrev pub larger : ℕ → ℕ → ℕ
larger a b = if ltb a b then b else a

-- The highest number, or 0.
unfoldable pub maximum : List ℕ → ℕ
maximum [] = zero
maximum (n ∷ ns) = larger n (maximum ns)

-- `getTargetSchemaVersion`.
unfoldable pub get_target_schema_version : List Migration → ℕ
get_target_schema_version ms = maximum (map (λ m. m.version) ms)

-- `getCurrentSchemaVersion`: `SELECT COALESCE(MAX(version), 0) FROM schema_migrations`.
unfoldable pub get_current_schema_version : M ℕ
get_current_schema_version = select (λ d. maximum d.schema_migrations)

unfoldable pub execute_script : Migration → M (Unit {0})
execute_script m = exec (λ _ d. record d { scripts = d.scripts ++ (m.script ∷ []) })

abbrev pub is_recorded : Migration → Database → Bool
is_recorded m d = any (λ v. eqb v m.version) d.schema_migrations

-- `INSERT INTO schema_migrations`; the version is the primary key.
unfoldable pub record_version : Migration → M (Unit {0})
record_version m =
    exec_unless (λ _ d. is_recorded m d)
      (λ _ d. record d { schema_migrations = d.schema_migrations ++ (m.version ∷ []) })

-- A migration in its transaction.
unfoldable pub apply_migration : Migration → M (Unit {0})
apply_migration m = do
  before ← begin
  or_rollback before (do execute_script m; record_version m; io io_failed)

abbrev pub apply_then : Bool → Migration → M (Unit {0}) → M (Unit {0})
apply_then true m rest = apply_migration m >> rest
apply_then false m rest = rest

-- `applyMigrations`, in the order in which the loop takes the map's entries.
unfoldable pub apply_migrations : ℕ → List Migration → M (Unit {0})
apply_migrations from [] = pure tt
apply_migrations from (m ∷ ms) = apply_then (ltb from m.version) m (apply_migrations from ms)

abbrev pub apply_above : List Migration → ℕ → M (Unit {0})
apply_above ms current = elim (ltb current (get_target_schema_version ms)) [
  | true ↦ apply_migrations current ms
  | false ↦ pure tt
]

-- `RunMigrations`; creating the table of versions again changes nothing.
unfoldable pub run_migrations : List Migration → M (Unit {0})
run_migrations ms = do io io_failed; current ← get_current_schema_version; apply_above ms current
