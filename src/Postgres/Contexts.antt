-- ===== src/Postgres/Contexts.antt =====
-- Execution contexts over PostgreSQL
-- (pkg/persistence/postgresql/execution_context_repository.go).
use mathlib.Core.Option
use operion.Base.{ℕ, String, not, ◌==◌, if◌then◌else◌, List, [], ◌∷◌, filter}
use operion.Models.Execution.{ExecutionContext}
use operion.Models.Event.{context_not_found}
use operion.Store.{M, ◌>>=◌, require}
use operion.Postgres.{Sorting, select, exec_unless, first}
use operion.Postgres.Nodes.{has_workflow}

-- `INSERT INTO execution_contexts … ON CONFLICT (id) DO UPDATE`, which keeps `created_at`.
unfoldable pub put_context : ExecutionContext → List ExecutionContext → List ExecutionContext
put_context c [] = c ∷ []
put_context c (b ∷ rows) =
    if b.id == c.id then record c { created_at = b.created_at } ∷ rows else b ∷ put_context c rows

-- The columns of an execution context, with what they keep of its times.
abbrev pub context_row : (ℕ → ℕ) → ExecutionContext → ExecutionContext
context_row keeps c = record c {
  created_at = keeps c.created_at;
  completed_at = Option.map keeps c.completed_at;
}

-- `SaveExecutionContext`.
unfoldable pub save_execution_context : ExecutionContext → M (Unit {0})
save_execution_context c =
    exec_unless (λ now d. not (has_workflow c.workflow_id d))
      (λ now d. record d { contexts = put_context (context_row d.keeps c) d.contexts })

-- `GetExecutionContext`.
unfoldable pub get_execution_context : String → M ExecutionContext
get_execution_context id = do
  rows ← select (λ d. filter (λ c. c.id == id) d.contexts)
  require (context_not_found id) (first rows)

-- `UpdateExecutionContext`.
unfoldable pub update_execution_context : ExecutionContext → M (Unit {0})
update_execution_context c = do old ← get_execution_context c.id; save_execution_context c

module _ (sort : Sorting) where
  -- `GetExecutionsByWorkflow`.
  unfoldable pub get_executions_by_workflow : String → M (List ExecutionContext)
  get_executions_by_workflow workflow = select (λ d.
      sort.descending (λ c. c.created_at) (filter (λ c. c.workflow_id == workflow) d.contexts))

  -- `GetExecutionsByStatus`.
  unfoldable pub get_executions_by_status : String → M (List ExecutionContext)
  get_executions_by_status status =
      select
        (λ d. sort.descending (λ c. c.created_at) (filter (λ c. c.status == status) d.contexts))
