-- ===== src/Nodes/Trigger.antt =====
-- The trigger nodes (pkg/nodes/trigger): what the three of them share.
pub mod Webhook
pub mod Scheduler
pub mod Kafka
use operion.Base.{String, Bool, true, ◌==◌, List, [], ◌∷◌, map, Dict, lookup, Option, none, some}
use operion.Models.Value.{Value, nil, string}
use operion.Models.Port.{Port, new_port}
use operion.Models.Execution.{NodeResult, InputRequirements, node_error}
use operion.Nodes.Common.{output_port_success, output_port_error, wait_for}

-- The one input port of a trigger node.
abbrev pub external_port : String
external_port = "external"

-- `createErrorResult`, the same in each trigger node.
unfoldable pub trigger_error : String → String → Dict NodeResult
trigger_error id message =
    (
      output_port_error,
      record {
        node_id = id;
        fields = ("error", string message) ∷ ("node_id", string id) ∷ [];
        status = node_error;
        timestamp = 0;
        error = message;
      },
    )
    ∷ []

abbrev pub value_or_nil : Option Value → Value
value_or_nil none = nil
value_or_nil (some v) = v

-- `m[k]` of a map from texts to values of any type.
abbrev pub entry : String → Dict Value → Value
entry k m = value_or_nil (lookup k m)

-- `InputRequirements`.
unfoldable pub trigger_requirements : InputRequirements
unfolding wait_for
trigger_requirements = wait_for external_port

-- `InputPorts` and `OutputPorts`.
unfoldable pub trigger_input_ports : String → List Port
trigger_input_ports id = new_port id external_port ∷ []

unfoldable pub trigger_output_ports : String → List Port
trigger_output_ports id = map (new_port id) (output_port_success ∷ output_port_error ∷ [])

-- `if v, ok := v.(string); !ok || v == ""`.
abbrev pub is_missing : Option String → Bool
is_missing none = true
is_missing (some s) = s == ""
