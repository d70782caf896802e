-- ===== src/Postgres/Inputs.antt =====
-- The states of nodes that wait for inputs, over PostgreSQL
-- (pkg/persistence/postgresql/input_coordination_repository.go).
use operion.Base.{
  ℕ, ◌-◌, ltb, String, Bool, ◌&&◌, not, any, ◌==◌, if◌then◌else◌, List, [], ◌∷◌, filter, Option,
}
use operion.Models.Execution.{NodeInputState}
use operion.Models.Database.{Database}
use operion.Models.Event.{io_failed, state_not_found}
use operion.Store.{M, ◌>>=◌, ◌>>◌, pure, io, require}
use operion.Postgres.{Sorting, select, exec, exec_unless, first}

-- `INSERT INTO input_coordination_states … ON CONFLICT (node_execution_id) DO UPDATE`.
unfoldable pub put_state : NodeInputState → List NodeInputState → List NodeInputState
put_state s [] = s ∷ []
put_state s (t ∷ rows) =
    if t.node_execution_id == s.node_execution_id
    then record t {
      received_inputs = s.received_inputs;
      requirements = s.requirements;
      last_updated_at = s.last_updated_at;
    }
      ∷ rows
    else t ∷ put_state s rows

-- The columns of an input state, with what they keep of its times.
abbrev pub state_row : (ℕ → ℕ) → NodeInputState → NodeInputState
state_row keeps s = record s {
  created_at = keeps s.created_at;
  last_updated_at = keeps s.last_updated_at;
}

-- What the foreign key to `execution_contexts` asks for.
unfoldable pub has_context : String → Database → Bool
has_context id d = any (λ c. c.id == id) d.contexts

-- `SaveInputState`.
unfoldable pub save_input_state : NodeInputState → M (Unit {0})
save_input_state s =
    exec_unless (λ now d. not (has_context s.execution_id d))
      (λ now d. record d { input_states = put_state (state_row d.keeps s) d.input_states })

-- `LoadInputState`.
unfoldable pub load_input_state : String → M NodeInputState
load_input_state id = do
  rows ← select (λ d. filter (λ s. s.node_execution_id == id) d.input_states)
  require (state_not_found id) (first rows)

-- `DeleteInputState`: a state that does not exist is no error. The number of deleted rows may fail
-- to be read.
unfoldable pub delete_input_state : String → M (Unit {0})
delete_input_state id = do
  exec (λ now d. record d {
    input_states = filter (λ s. not (s.node_execution_id == id)) d.input_states;
  })
  io io_failed

-- `CleanupExpiredStates`; no time is below 0.
unfoldable pub cleanup_expired_states : ℕ → M (Unit {0})
cleanup_expired_states max_age = do
  exec (λ now d. record d {
    input_states = filter (λ s. not (ltb s.created_at (now - max_age))) d.input_states;
  })
  io io_failed

module _ (sort : Sorting) where
  -- `FindPendingNodeExecution`.
  unfoldable pub find_pending_node_execution : String → String → M (Option NodeInputState)
  find_pending_node_execution node execution = do
    rows ← select (λ d.
        sort.ascending (λ s. s.created_at)
          (filter (λ s. s.node_id == node && s.execution_id == execution) d.input_states))
    pure (first rows)
