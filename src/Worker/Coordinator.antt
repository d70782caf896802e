-- ===== src/Worker/Coordinator.antt =====
-- The input coordinator (cmd/operion-worker/input_coordinator.go).
pub mod Ready
use Prim.Native.String.{slice}
use Prim.Native.String
use operion.Base.{
  ℕ, suc, ◌+◌, String, Bool, true, false, not, ◌==◌, if◌then◌else◌, List, [], is_empty, all, any,
  Dict, lookup, insert, Option, none, some,
}
use operion.Models.Execution.{
  NodeResult, InputRequirements, NodeInputState, wait_all, wait_any, wait_first,
}
use operion.Models.Event.{Error}
use operion.Store.{World, M, Result, ok, err, ◌>>=◌, ◌>>◌, pure, gets, modify, attempt}
use operion.Store.Inputs.{
  save_input_state, load_input_state, delete_input_state, find_pending_node_execution,
}

abbrev is_some : {A : Type 0} → Option A → Bool
is_some none = false
is_some (some _) = true

-- `_, hasInput := state.ReceivedInputs[port]`.
unfoldable pub has_input : NodeInputState → String → Bool
has_input state port = is_some (lookup port state.received_inputs)

-- `IsNodeReady`.
unfoldable pub is_node_ready : NodeInputState → Bool
is_node_ready state =
    let mode = state.requirements.wait_mode in
    if mode == wait_all
    then all (has_input state) state.requirements.required_ports
    else if mode == wait_any
    then any (has_input state) state.requirements.required_ports
    else if mode == wait_first
    then not (is_empty state.received_inputs)
    else not (is_empty state.received_inputs)

-- The state that is made where none could be loaded.
unfoldable pub new_state : String → String → String → InputRequirements → ℕ → NodeInputState
new_state node execution id requirements now = record {
  node_id = node;
  execution_id = execution;
  node_execution_id = id;
  received_inputs = [];
  requirements = requirements;
  created_at = now;
  last_updated_at = now;
}

unfoldable pub with_input : String → NodeResult → ℕ → NodeInputState → NodeInputState
with_input port result now state = record state {
  received_inputs = insert port result state.received_inputs;
  last_updated_at = now;
}

abbrev loaded_or : NodeInputState → Result NodeInputState → NodeInputState
loaded_or fresh (ok state) = state
loaded_or fresh (err _) = fresh

-- `AddInput`: any error of loading is taken to mean that there is no state yet.
unfoldable pub add_input :
    String → String → String → String → NodeResult → InputRequirements → M (NodeInputState × Bool)
add_input node execution id port result requirements = do
  loaded ← attempt (load_input_state id)
  now ← gets (λ w. w.now)
  let state =
      with_input port result now (loaded_or (new_state node execution id requirements now) loaded)
  save_input_state state
  pure (state, is_node_ready state)

-- `GetPendingNodeExecution`.
unfoldable pub get_pending_node_execution : String → String → M (Option NodeInputState)
get_pending_node_execution = find_pending_node_execution

-- `CleanupNodeExecution`.
unfoldable pub cleanup_node_execution : String → M (Unit {0})
cleanup_node_execution = delete_input_state

-- `GenerateNodeExecutionID`, over the texts of the identifiers that `uuid.New` gives in turn.
unfoldable pub generate_node_execution_id : (ℕ → String) → M String
generate_node_execution_id uuid = do
  n ← gets (λ w. w.ids)
  modify (λ w. record w { ids = w.ids + 1 })
  pure (String.◌++◌ "node-exec-" (slice (uuid n) 0 8))
