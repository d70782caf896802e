-- ===== src/Nodes/Merge.antt =====
-- The merge node (pkg/nodes/merge/node.go).
pub mod Inputs
use operion.Base.{
  String, ◌||◌, ◌==◌, ltb, if◌then◌else◌, List, [], ◌∷◌, map, length, Dict, keys, lookup, insert,
  Option, none, some,
}
use operion.Models.Value.{Value, string, slice, object, object_of, slice_of, as_string, as_slice}
use operion.Models.Port.{Port, new_port}
use operion.Models.Execution.{
  NodeResult, ExecutionContext, InputRequirements, wait_all, wait_any, wait_first,
}
use operion.Models.Event.{Error, field_required, invalid_config}
use operion.Store.{Result, ok, err}
use operion.Registry.{Node}
use operion.Nodes.Common.{output_port_error, success_on, create_error_result}

abbrev pub output_port_merged : String
output_port_merged = "merged"

abbrev pub mode_all : String
mode_all = "all"

abbrev pub mode_any : String
mode_any = "any"

abbrev pub mode_first : String
mode_first = "first"

pub record MergeNode : Type 0 where
  pub id : String
  pub input_ports : List String
  pub merge_mode : String

abbrev with_port : Option String → Option (List String) → Option (List String)
with_port (some p) (some ps) = some (p ∷ ps)
with_port _ _ = none

-- The loop that reads the ports, each of which must be a string.
unfoldable pub read_ports : List Value → Option (List String)
read_ports [] = some []
read_ports (v ∷ vs) = with_port (as_string (some v)) (read_ports vs)

abbrev mode_or_all : Option String → String
mode_or_all none = mode_all
mode_or_all (some mode) = mode

abbrev made : String → String → Option (List String) → Result MergeNode
made id mode none = err (invalid_config "input_ports")
made id mode (some ports) = ok (record { id = id; input_ports = ports; merge_mode = mode })

abbrev ports_of : String → String → Option (List Value) → Result MergeNode
ports_of id mode none = err (field_required "input_ports")
ports_of id mode (some vs) = made id mode (read_ports vs)

-- `NewMergeNode`.
unfoldable pub new_merge_node : String → Dict Value → Result MergeNode
new_merge_node id config =
    ports_of id (mode_or_all (as_string (lookup "merge_mode" config)))
      (as_slice (lookup "input_ports" config))

-- `InputRequirements`.
unfoldable pub merge_requirements : MergeNode → InputRequirements
merge_requirements n = record {
  required_ports = n.input_ports;
  optional_ports = [];
  wait_mode =
      if n.merge_mode == mode_any
      then wait_any
      else if n.merge_mode == mode_first
      then wait_first
      else wait_all;
  timeout = none;
}

-- The loop over the inputs, in the order in which Go gives them.
unfoldable pub merge_inputs : Dict Value → Dict NodeResult → Dict Value
merge_inputs merged [] = merged
merge_inputs merged ((port, result) ∷ inputs) =
    merge_inputs (insert port (object (object_of result.fields)) merged) inputs

-- Under the mode "first" one input is kept: the one that came first in the loop.
unfoldable pub keep_first : Dict NodeResult → Dict NodeResult
keep_first [] = []
keep_first (i ∷ inputs) = i ∷ []

unfoldable pub merged_output : MergeNode → Dict NodeResult → Dict NodeResult
merged_output n inputs = success_on n.id output_port_merged (
    ("merged_inputs", object (object_of (merge_inputs [] inputs)))
    ∷ ("inputs_received", slice (slice_of (map string (keys inputs))))
    ∷ ("merge_mode", string n.merge_mode)
    ∷ [])

-- `Execute`.
unfoldable pub execute_merge :
    MergeNode → ExecutionContext → Dict NodeResult → Result (Dict NodeResult)
execute_merge n c inputs = ok (
    if n.merge_mode == mode_first
    then merged_output n (keep_first inputs)
    else if n.merge_mode == mode_all || n.merge_mode == mode_any
    then merged_output n inputs
    else create_error_result n.id "unknown merge mode")

-- `InputPorts` and `OutputPorts`.
unfoldable pub merge_input_ports : MergeNode → List Port
merge_input_ports n = map (new_port n.id) n.input_ports

unfoldable pub merge_output_ports : MergeNode → List Port
merge_output_ports n = map (new_port n.id) (output_port_merged ∷ output_port_error ∷ [])

abbrev mode_error : Option String → Option Error
mode_error none = none
mode_error (some mode) =
    if mode == mode_all || mode == mode_any || mode == mode_first
    then none
    else some (invalid_config "merge_mode")

abbrev config_error : Option (List Value) → Option String → Option Error
config_error none mode = some (field_required "input_ports")
config_error (some vs) mode =
    if ltb (length vs) 2 then some (invalid_config "input_ports") else mode_error mode

-- `Validate`.
unfoldable pub validate_merge : Dict Value → Option Error
validate_merge config =
    config_error (as_slice (lookup "input_ports" config)) (as_string (lookup "merge_mode" config))

-- The node as the worker uses it.
unfoldable pub merge_node : MergeNode → Node
merge_node n = record {
  input_requirements = some (merge_requirements n);
  execute = execute_merge n;
}
