-- ===== src/Nodes/Switch.antt =====
-- The switch node (pkg/nodes/switch/node.go).
use operion.Base.{
  String, Bool, true, not, ◌&&◌, ◌==◌, List, [], ◌∷◌, map, filter, Dict, lookup, insert, values,
  Option, none, some,
}
use operion.Models.Value.{Value, bool, string, as_string, as_slice, as_object}
use operion.Models.Port.{Port, new_port}
use operion.Models.Execution.{NodeResult, ExecutionContext, InputRequirements}
use operion.Models.Event.{Error, field_required, invalid_config}
use operion.Store.{Result, ok, err}
use operion.Registry.{Node}
use operion.Template.{Engine, render_with_context}
use operion.Nodes.Common.{
  input_port_main, output_port_error, success_on, create_error_result, wait_for,
}

abbrev pub output_port_default : String
output_port_default = "default"

pub record SwitchNode : Type 0 where
  pub id : String
  pub value : String
  pub cases : Dict String

abbrev case_of : Option String → Option String → Result (String × String)
case_of none port = err (invalid_config "value")
case_of (some value) none = err (invalid_config "output_port")
case_of (some value) (some port) = ok (value, port)

abbrev read_fields : Option (Dict Value) → Result (String × String)
read_fields none = err (invalid_config "case")
read_fields (some m) = case_of (as_string (lookup "value" m)) (as_string (lookup "output_port" m))

-- One case of the configuration: its value and its output port.
unfoldable pub read_case : Value → Result (String × String)
read_case v = read_fields (as_object (some v))

abbrev pub then_case :
    Result (String × String) → (String → String → Result (Dict String)) → Result (Dict String)
then_case (err e) rest = err e
then_case (ok (value, port)) rest = rest value port

-- The loop over the cases; a later case for the same value replaces the earlier one.
unfoldable pub read_cases : Dict String → List Value → Result (Dict String)
read_cases cases [] = ok cases
read_cases cases (v ∷ vs) =
    then_case (read_case v) (λ value port. read_cases (insert value port cases) vs)

abbrev pub made : String → Option String → Result (Dict String) → Result SwitchNode
made id none cases = err (field_required "value")
made id (some value) (err e) = err e
made id (some value) (ok cases) = ok (record { id = id; value = value; cases = cases })

abbrev pub cases_or_none : Option (List Value) → Result (Dict String)
cases_or_none none = ok []
cases_or_none (some vs) = read_cases [] vs

-- `NewSwitchNode`.
unfoldable pub new_switch_node : String → Dict Value → Result SwitchNode
new_switch_node id config =
    made id (as_string (lookup "value" config)) (cases_or_none (as_slice (lookup "cases" config)))

unfoldable pub to_case : SwitchNode → String → Option String → Dict NodeResult
to_case n text (some port) =
    success_on n.id port (("matched_value", string text) ∷ ("output_port", string port) ∷ [])
to_case n text none = success_on n.id output_port_default (
    ("matched_value", string text)
    ∷ ("output_port", string output_port_default)
    ∷ ("no_match", bool true)
    ∷ [])

unfoldable pub switched : Engine → SwitchNode → Result Value → Dict NodeResult
switched g n (err e) = create_error_result n.id "value evaluation failed"
switched g n (ok v) = let text = g.format v in to_case n text (lookup text n.cases)

-- `Execute`.
unfoldable pub execute_switch :
    Engine → SwitchNode → ExecutionContext → Dict NodeResult → Result (Dict NodeResult)
execute_switch g n c inputs = ok (switched g n (render_with_context g n.value c))

-- `InputRequirements`.
unfoldable pub switch_requirements : InputRequirements
unfolding wait_for
switch_requirements = wait_for input_port_main

unfoldable pub is_dynamic : String → Bool
is_dynamic port = not (port == output_port_default) && not (port == output_port_error)

-- `OutputPorts`.
unfoldable pub switch_output_ports : SwitchNode → List Port
switch_output_ports n =
    map (new_port n.id)
      (output_port_default ∷ output_port_error ∷ filter is_dynamic (values n.cases))

abbrev pub checked : Result (String × String) → Option Error → Option Error
checked (err e) rest = some e
checked (ok _) rest = rest

unfoldable pub validate_cases : List Value → Option Error
validate_cases [] = none
validate_cases (v ∷ vs) = checked (read_case v) (validate_cases vs)

abbrev pub cases_error : Option (List Value) → Option Error
cases_error none = none
cases_error (some vs) = validate_cases vs

abbrev pub config_error : Option Value → Option (List Value) → Option Error
config_error none cases = some (field_required "value")
config_error (some _) cases = cases_error cases

-- `Validate`.
unfoldable pub validate_switch : Dict Value → Option Error
validate_switch config = config_error (lookup "value" config) (as_slice (lookup "cases" config))

-- The node as the worker uses it.
unfoldable pub switch_node : Engine → SwitchNode → Node
switch_node g n = record {
  input_requirements = some switch_requirements;
  execute = execute_switch g n;
}
