-- ===== src/Worker/Manager.antt =====
-- The worker manager: publishing, running a node and activating the next ones
-- (cmd/operion-worker/worker_manager.go).
use Prim.Native.String
use operion.Base.{ℕ, String, List, [], ◌∷◌, ◌++◌, Dict, lookup, insert, Option, none, some}
use operion.Models.Value.{Value, nil, object, fields, object_of}
use operion.Models.Port.{parse_port_id}
use operion.Models.Workflow.{WorkflowNode, Connection}
use operion.Models.Execution.{
  NodeResult, ExecutionContext, InputRequirements, node_success, node_error,
  default_input_requirements,
}
use operion.Models.Event.{
  Error, publish_failed, Event, NodeActivation, NodeCompletion, activation, completion,
}
use operion.Store.{M, Result, ok, err, ◌>>=◌, ◌>>◌, pure, modify, attempt, io}
use operion.Store.Nodes.{get_connections_by_source_node}
use operion.Registry.{Node, Registry, create_node}

-- `EventBus.Publish`: the bus takes the event, or the call fails.
unfoldable pub publish : String → Event → M (Unit {0})
publish key event = do
  io publish_failed
  modify (λ w. record w { bus = w.bus ++ (key, event) ∷ [] })

abbrev pub event_key : String → String → String
event_key node execution = String.◌++◌ node (String.◌++◌ ":" execution)

-- `convertNodeResultsToOutputData`.
unfoldable pub output_data : Dict NodeResult → Dict Value
output_data [] = []
output_data ((port, result) ∷ rs) = (port, object (object_of result.fields)) ∷ output_data rs

abbrev status_of : Option Error → String
status_of none = node_success
status_of (some _) = node_error

unfoldable pub completion_of : NodeActivation → Dict NodeResult → Option Error → NodeCompletion
completion_of a outputs error = record {
  execution_id = a.execution_id;
  node_id = a.node_id;
  workflow_id = a.workflow_id;
  status = status_of error;
  output_data = output_data outputs;
  error_message = error;
}

-- `publishNodeCompletionEvent`.
unfoldable pub publish_node_completion_event :
    NodeActivation → Dict NodeResult → Option Error → M (Unit {0})
publish_node_completion_event a outputs error =
    publish (event_key a.node_id a.execution_id) (completion (completion_of a outputs error))

abbrev requirements_or_default : Option InputRequirements → InputRequirements
requirements_or_default none = default_input_requirements
requirements_or_default (some r) = r

abbrev requirements_of : Result Node → InputRequirements
requirements_of (err _) = default_input_requirements
requirements_of (ok node) = requirements_or_default node.input_requirements

-- `getNodeInputRequirements`.
unfoldable pub get_node_input_requirements : Registry → WorkflowNode → InputRequirements
get_node_input_requirements r n = requirements_of (create_node r n.type n.id n.config)

-- The input of an activation as a map.
unfoldable pub data_map : Value → Dict Value
data_map nil = []
data_map (object fs) = fields fs
data_map v = ("value", v) ∷ []

unfoldable pub input_result : NodeActivation → ℕ → NodeResult
input_result a now = record {
  node_id = a.source_node;
  fields = data_map a.input_data;
  status = node_success;
  timestamp = now;
  error = "";
}

abbrev run_node : Result Node → Dict NodeResult → ExecutionContext → Result (Dict NodeResult)
run_node (err e) inputs c = err e
run_node (ok node) inputs c = node.execute c inputs

-- `executeNodeWithInputs`.
unfoldable pub execute_node_with_inputs :
    Registry → WorkflowNode → Dict NodeResult → ExecutionContext → Result (Dict NodeResult)
execute_node_with_inputs r n inputs c = run_node (create_node r n.type n.id n.config) inputs c

-- The results of the outputs, stored under "node::port".
unfoldable pub store_results : String → Dict NodeResult → Dict NodeResult → Dict NodeResult
store_results node [] results = results
store_results node ((port, result) ∷ outputs) results =
    store_results node outputs (insert (String.◌++◌ node (String.◌++◌ "::" port)) result results)

unfoldable pub activation_of :
    String → String → String → String → String → String → NodeResult → NodeActivation
activation_of workflow execution source source_port target target_port result = record {
  execution_id = execution;
  node_id = target;
  workflow_id = workflow;
  input_port = target_port;
  input_data = object (object_of result.fields);
  source_node = source;
  source_port = source_port;
}

abbrev pub activation_by :
    String → String → String → String → String → String → Option NodeResult → Option NodeActivation
activation_by workflow execution source port target target_port none = none
activation_by workflow execution source port target target_port (some result) =
    some (activation_of workflow execution source port target target_port result)

abbrev pub along :
    String
    → String
    → String
    → Dict NodeResult
    → Option (String × String)
    → Option (String × String)
    → Option NodeActivation
along workflow execution source outputs (some (_, port)) (some (target, target_port)) =
    activation_by workflow execution source port target target_port (lookup port outputs)
along workflow execution source outputs _ _ = none

-- The activation that a connection calls for: none if one of its ports does not parse, or if the
-- node gave no output on the port that it starts from.
unfoldable pub activation_along :
    String → String → String → Dict NodeResult → Connection → Option NodeActivation
activation_along workflow execution source outputs c =
    along workflow execution source outputs (parse_port_id c.source_port)
      (parse_port_id c.target_port)

abbrev pub publish_activation : Option NodeActivation → M (Unit {0})
publish_activation none = pure tt
publish_activation (some a) = publish (event_key a.node_id a.execution_id) (activation a)

-- The loop over the connections; an activation that cannot be published is passed over.
unfoldable pub activate_each :
    String → String → String → Dict NodeResult → List Connection → M (Unit {0})
activate_each workflow execution source outputs [] = pure tt
activate_each workflow execution source outputs (c ∷ cs) = do
  sent ← attempt (publish_activation (activation_along workflow execution source outputs c))
  activate_each workflow execution source outputs cs

-- `activateNextNodes`.
unfoldable pub activate_next_nodes : String → String → String → Dict NodeResult → M (Unit {0})
activate_next_nodes workflow execution source outputs = do
  connections ← get_connections_by_source_node workflow source
  activate_each workflow execution source outputs connections
