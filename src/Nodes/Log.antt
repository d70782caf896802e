-- ===== src/Nodes/Log.antt =====
-- The log node (pkg/nodes/log/node.go). What is written to the log is left out.
use operion.Base.{
  String, ◌||◌, ◌==◌, if◌then◌else◌, List, [], ◌∷◌, map, true, Dict, lookup, Option, none, some,
}
use operion.Models.Value.{Value, bool, string, as_string}
use operion.Models.Port.{Port, new_port}
use operion.Models.Execution.{NodeResult, ExecutionContext, InputRequirements}
use operion.Models.Event.{Error, field_required, invalid_config}
use operion.Store.{Result, ok, err}
use operion.Registry.{Node}
use operion.Template.{Engine, render_with_context}
use operion.Nodes.Common.{
  input_port_main, output_port_success, output_port_error, success_on, create_error_result,
  wait_for,
}

pub record LogNode : Type 0 where
  pub id : String
  pub message : String
  pub level : String

abbrev level_or_info : Option String → String
level_or_info none = "info"
level_or_info (some level) = level

abbrev made : String → Option String → Option String → Result LogNode
made id none level = err (field_required "message")
made id (some message) level =
    ok (record { id = id; message = message; level = level_or_info level })

-- `NewLogNode`.
unfoldable pub new_log_node : String → Dict Value → Result LogNode
new_log_node id config =
    made id (as_string (lookup "message" config)) (as_string (lookup "level" config))

unfoldable pub logged : Engine → LogNode → Result Value → Dict NodeResult
logged g n (err e) = create_error_result n.id "failed to render log message template"
logged g n (ok v) =
    success_on n.id output_port_success
      (("message", string (g.format v)) ∷ ("level", string n.level) ∷ ("logged", bool true) ∷ [])

-- `Execute`.
unfoldable pub execute_log :
    Engine → LogNode → ExecutionContext → Dict NodeResult → Result (Dict NodeResult)
execute_log g n c inputs = ok (logged g n (render_with_context g n.message c))

-- `InputRequirements`.
unfoldable pub log_requirements : InputRequirements
unfolding wait_for
log_requirements = wait_for input_port_main

-- `InputPorts` and `OutputPorts`.
unfoldable pub log_input_ports : LogNode → List Port
log_input_ports n = new_port n.id input_port_main ∷ []

unfoldable pub log_output_ports : LogNode → List Port
log_output_ports n = map (new_port n.id) (output_port_success ∷ output_port_error ∷ [])

abbrev level_error : Option String → Option Error
level_error none = none
level_error (some level) =
    if level == "debug" || level == "info" || level == "warn" || level == "error"
    then none
    else some (invalid_config "level")

abbrev config_error : Option Value → Option String → Option Error
config_error none level = some (field_required "message")
config_error (some _) level = level_error level

-- `Validate`.
unfoldable pub validate_log : Dict Value → Option Error
validate_log config = config_error (lookup "message" config) (as_string (lookup "level" config))

-- The node as the worker uses it.
unfoldable pub log_node : Engine → LogNode → Node
log_node g n = record { input_requirements = some log_requirements; execute = execute_log g n }
