-- ===== src/Nodes/Conditional.antt =====
-- The conditional node (pkg/nodes/conditional/node.go).
use operion.Base.{
  ◌%◌, String, Bool, true, false, not, ◌==◌, eqb, List, [], ◌∷◌, map, is_empty, Dict, lookup,
  Option, none, some,
}
use operion.Models.Value.{
  Value, nil, bool, string, int, int64, int32, float64, float32, slice, object, other, items,
  fields, as_string,
}
use operion.Models.Port.{Port, new_port}
use operion.Models.Execution.{NodeResult, ExecutionContext, InputRequirements}
use operion.Models.Event.{Error, field_required}
use operion.Store.{Result, ok, err}
use operion.Registry.{Node}
use operion.Template.{Engine, parse_bool, render_with_context}
use operion.Nodes.Common.{
  input_port_main, output_port_error, success_on, create_error_result, wait_for, missing_unless,
}

pub record ConditionalNode : Type 0 where
  pub id : String
  pub condition : String

abbrev made : String → Option String → Result ConditionalNode
made id none = err (field_required "condition")
made id (some condition) = ok (record { id = id; condition = condition })

-- `NewConditionalNode`.
unfoldable pub new_conditional_node : String → Dict Value → Result ConditionalNode
new_conditional_node id config = made id (as_string (lookup "condition" config))

abbrev string_truth : String → Option Bool → Bool
string_truth s (some b) = b
string_truth s none = not (s == "")

-- `evaluateCondition`. In a case of several types the value keeps its own type, and it is compared
-- with the `int` 0 or the `float64` 0: a value of another type differs from that. Of the bit
-- patterns of a `float64`, those of 0 and of -0 stand for 0.
unfoldable pub evaluate_condition : Value → Bool
evaluate_condition (bool b) = b
evaluate_condition (string s) = string_truth s (parse_bool s)
evaluate_condition (int n) = not (eqb n 0)
evaluate_condition (int64 n) = true
evaluate_condition (int32 n) = true
evaluate_condition (float64 bits) = not (eqb (bits % 0x8000000000000000) 0)
evaluate_condition (float32 bits) = true
evaluate_condition (slice vs) = not (is_empty (items vs))
evaluate_condition (object fs) = not (is_empty (fields fs))
evaluate_condition nil = false
evaluate_condition other = false

abbrev pub port_of : Bool → String
port_of true = "true"
port_of false = "false"

unfoldable pub routed : ConditionalNode → Result Value → Dict NodeResult
routed n (err e) = create_error_result n.id "condition evaluation failed"
routed n (ok v) =
    let truth = evaluate_condition v in
    success_on n.id (port_of truth) (("condition_result", bool truth) ∷ ("evaluated_value", v) ∷ [])

-- `Execute`.
unfoldable pub execute_conditional :
    Engine → ConditionalNode → ExecutionContext → Dict NodeResult → Result (Dict NodeResult)
execute_conditional g n c inputs = ok (routed n (render_with_context g n.condition c))

-- `InputRequirements`.
unfoldable pub conditional_requirements : InputRequirements
unfolding wait_for
conditional_requirements = wait_for input_port_main

-- `InputPorts` and `OutputPorts`.
unfoldable pub conditional_input_ports : ConditionalNode → List Port
conditional_input_ports n = new_port n.id input_port_main ∷ []

unfoldable pub conditional_output_ports : ConditionalNode → List Port
conditional_output_ports n = map (new_port n.id) ("true" ∷ "false" ∷ output_port_error ∷ [])

-- `Validate`.
unfoldable pub validate_conditional : Dict Value → Option Error
validate_conditional config = missing_unless "condition" (lookup "condition" config)

-- The node as the worker uses it.
unfoldable pub conditional_node : Engine → ConditionalNode → Node
conditional_node g n = record {
  input_requirements = some conditional_requirements;
  execute = execute_conditional g n;
}
