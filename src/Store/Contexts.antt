-- ===== src/Store/Contexts.antt =====
-- Execution contexts over files (pkg/persistence/file/execution_context.go).
use operion.Base.{String, Bool, true, false, ◌==◌, List, [], ◌∷◌, keys, lookup}
use operion.Models.Execution.{ExecutionContext}
use operion.Models.Event.{io_failed, context_not_found}
use operion.Store.{M, Result, ok, err, ◌>>=◌, ◌>>◌, pure, gets, modify, require, check, attempt, io}
use operion.Store.Workflows.{write_file}
use operion.Store.Path.{validate_id}

-- `SaveExecutionContext`.
unfoldable pub save_execution_context : ExecutionContext → M (Unit {0})
save_execution_context c = do
  io io_failed
  modify (λ w. record w { contexts = write_file ".json" c.id c w.contexts })

-- `GetExecutionContext`.
unfoldable pub get_execution_context : String → M ExecutionContext
get_execution_context id = do
  check (validate_id id)
  io io_failed
  found ← gets (λ w. lookup id w.contexts)
  require (context_not_found id) found

-- `UpdateExecutionContext`.
unfoldable pub update_execution_context : ExecutionContext → M (Unit {0})
update_execution_context c = do old ← get_execution_context c.id; save_execution_context c

abbrev with_selected :
    (ExecutionContext → Bool)
    → Result ExecutionContext
    → List ExecutionContext
    → List ExecutionContext
with_selected test (err _) cs = cs
with_selected test (ok c) cs = elim (test c) [ true ↦ c ∷ cs | false ↦ cs ]

-- The loop over the files; a context that cannot be read is passed over.
unfoldable pub select_contexts : (ExecutionContext → Bool) → List String → M (List ExecutionContext)
select_contexts test [] = pure []
select_contexts test (id ∷ ids) = do
  c ← attempt (get_execution_context id)
  cs ← select_contexts test ids
  pure (with_selected test c cs)

-- `GetExecutionsByWorkflow`.
unfoldable pub get_executions_by_workflow : String → M (List ExecutionContext)
get_executions_by_workflow workflow = do
  io io_failed
  ids ← gets (λ w. keys w.contexts)
  select_contexts (λ c. c.workflow_id == workflow) ids

-- `GetExecutionsByStatus`.
unfoldable pub get_executions_by_status : String → M (List ExecutionContext)
get_executions_by_status status = do
  io io_failed
  ids ← gets (λ w. keys w.contexts)
  select_contexts (λ c. c.status == status) ids
