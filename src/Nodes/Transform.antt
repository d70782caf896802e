-- ===== src/Nodes/Transform.antt =====
-- The transform node (pkg/nodes/transform/node.go).
use operion.Base.{String, List, [], ◌∷◌, map, Dict, lookup, Option, none, some}
use operion.Models.Value.{Value, as_string}
use operion.Models.Port.{Port, new_port}
use operion.Models.Execution.{NodeResult, ExecutionContext, InputRequirements}
use operion.Models.Event.{Error, field_required}
use operion.Store.{Result, ok, err}
use operion.Registry.{Node}
use operion.Template.{Engine, render_with_context}
use operion.Nodes.Common.{
  input_port_main, output_port_success, output_port_error, success_on, create_error_result,
  wait_for, missing_unless,
}

pub record TransformNode : Type 0 where
  pub id : String
  pub expression : String

abbrev made : String → Option String → Result TransformNode
made id none = err (field_required "expression")
made id (some expression) = ok (record { id = id; expression = expression })

-- `NewTransformNode`.
unfoldable pub new_transform_node : String → Dict Value → Result TransformNode
new_transform_node id config = made id (as_string (lookup "expression" config))

unfoldable pub transformed : TransformNode → Result Value → Dict NodeResult
transformed n (err e) = create_error_result n.id "transformation failed"
transformed n (ok v) = success_on n.id output_port_success (("result", v) ∷ [])

-- `Execute`.
unfoldable pub execute_transform :
    Engine → TransformNode → ExecutionContext → Dict NodeResult → Result (Dict NodeResult)
execute_transform g n c inputs = ok (transformed n (render_with_context g n.expression c))

-- `InputRequirements`.
unfoldable pub transform_requirements : InputRequirements
unfolding wait_for
transform_requirements = wait_for input_port_main

-- `InputPorts` and `OutputPorts`.
unfoldable pub transform_input_ports : TransformNode → List Port
transform_input_ports n = new_port n.id input_port_main ∷ []

unfoldable pub transform_output_ports : TransformNode → List Port
transform_output_ports n = map (new_port n.id) (output_port_success ∷ output_port_error ∷ [])

-- `Validate`.
unfoldable pub validate_transform : Dict Value → Option Error
validate_transform config = missing_unless "expression" (lookup "expression" config)

-- The node as the worker uses it.
unfoldable pub transform_node : Engine → TransformNode → Node
transform_node g n = record {
  input_requirements = some transform_requirements;
  execute = execute_transform g n;
}
