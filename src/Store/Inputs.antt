-- ===== src/Store/Inputs.antt =====
-- The states of nodes that wait for inputs, over files
-- (pkg/persistence/file/input_coordination.go).
use Prim.Native.String
use text.Mathlib.Text.{starts_with}
use operion.Base.{
  String, Bool, true, false, ◌&&◌, ◌==◌, ltb, if◌then◌else◌, List, [], ◌∷◌, keys, lookup, delete,
  Option, none, some,
}
use operion.Models.Execution.{NodeInputState}
use operion.Models.Event.{io_failed, state_not_found}
use operion.Store.{M, Result, ok, ◌>>=◌, ◌>>◌, pure, gets, modify, require, check, attempt, io}
use operion.Store.Workflows.{write_file}
use operion.Store.Path.{join, validate_id}

abbrev suffix : String
suffix = "-input-state.json"

-- `SaveInputState`.
unfoldable pub save_input_state : NodeInputState → M (Unit {0})
save_input_state state = do
  check (validate_id state.node_execution_id)
  io io_failed
  modify (λ w. record w {
    input_states = write_file suffix state.node_execution_id state w.input_states;
  })

-- `LoadInputState`.
unfoldable pub load_input_state : String → M NodeInputState
load_input_state id = do
  check (validate_id id)
  io io_failed
  found ← gets (λ w. lookup id w.input_states)
  require (state_not_found id) found

-- `DeleteInputState`; a file that does not exist is no error.
unfoldable pub delete_input_state : String → M (Unit {0})
delete_input_state id = do
  check (validate_id id)
  io io_failed
  modify (λ w. record w { input_states = delete id w.input_states })

unfoldable pub is_pending_for : String → String → NodeInputState → Bool
is_pending_for node execution state = state.node_id == node && state.execution_id == execution

-- One file of the loop: the oldest state of the node in the execution is kept.
unfoldable pub keep_oldest :
    String → String → NodeInputState → Option NodeInputState → Option NodeInputState
keep_oldest node execution state none =
    if is_pending_for node execution state then some state else none
keep_oldest node execution state (some oldest) =
    if is_pending_for node execution state && ltb state.created_at oldest.created_at
    then some state
    else some oldest

-- The test that a file's path begins with the folder that the repository was given.
unfoldable pub is_inside : String → String → Bool
is_inside root id = starts_with (join root (String.◌++◌ id suffix)) root

unfoldable pub read_state : String → M (Option NodeInputState)
read_state id = do io io_failed; gets (λ w. lookup id w.input_states)

-- A file that cannot be read is passed over.
abbrev pub consider :
    String → String → Option NodeInputState → Result (Option NodeInputState) → Option NodeInputState
consider node execution oldest (ok (some state)) = keep_oldest node execution state oldest
consider node execution oldest _ = oldest

-- The loop over the files.
unfoldable pub scan_states :
    String → String → String → Option NodeInputState → List String → M (Option NodeInputState)
scan_states root node execution oldest [] = pure oldest
scan_states root node execution oldest (id ∷ ids) = elim (is_inside root id) [
  | true ↦ do
    state ← attempt (read_state id)
    scan_states root node execution (consider node execution oldest state) ids
  | false ↦ scan_states root node execution oldest ids
]

-- `FindPendingNodeExecution`.
unfoldable pub find_pending_node_execution : String → String → M (Option NodeInputState)
find_pending_node_execution node execution = do
  io io_failed
  root ← gets (λ w. w.root)
  ids ← gets (λ w. keys w.input_states)
  scan_states root node execution none ids
