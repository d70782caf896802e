-- ===== src/Nodes/Common.antt =====
-- What the node types share: results without a time stamp, the output on the error port, and the
-- requirements of a node with the one input port "main".
use operion.Base.{String, false, [], ◌∷◌, Dict, Option, none, some}
use operion.Models.Value.{Value, bool, string}
use operion.Models.Execution.{NodeResult, InputRequirements, node_success, node_error, wait_all}
use operion.Models.Event.{Error, field_required}

abbrev pub input_port_main : String
input_port_main = "main"

abbrev pub output_port_success : String
output_port_success = "success"

abbrev pub output_port_error : String
output_port_error = "error"

unfoldable pub node_result : String → String → Dict Value → NodeResult
node_result id status fields = record {
  node_id = id;
  fields = fields;
  status = status;
  timestamp = 0;
  error = "";
}

-- One output, on the given port.
unfoldable pub success_on : String → String → Dict Value → Dict NodeResult
success_on id port fields = (port, node_result id node_success fields) ∷ []

-- `createErrorResult`, the same in each node type; the nodes give it the fixed part of their message,
-- without the text of the error or of the mode that they append.
unfoldable pub create_error_result : String → String → Dict NodeResult
create_error_result id message =
    (
      output_port_error,
      node_result id node_error (("error", string message) ∷ ("success", bool false) ∷ []),
    )
    ∷ []

-- `InputRequirements` of the node types that wait for their one input port.
unfoldable pub wait_for : String → InputRequirements
wait_for port = record {
  required_ports = port ∷ [];
  optional_ports = [];
  wait_mode = wait_all;
  timeout = none;
}

abbrev pub missing_unless : {A : Type 0} → String → Option A → Option Error
missing_unless field none = some (field_required field)
missing_unless field (some _) = none

-- A configured text, or the default.
abbrev pub text_or : String → Option String → String
text_or s none = s
text_or s (some t) = t
