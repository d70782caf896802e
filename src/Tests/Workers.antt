-- ===== src/Tests/Workers.antt =====
-- Nodes and the handler of activations (pkg/nodes, cmd/operion-worker/worker_manager.go).
use operion.Base.{inl, lookup, Dict, Dict, refl, List, Bool, false}
use operion.Base.{ℕ, String, true, ◌≡◌, ◌⊎◌, [], ◌∷◌, none, some}
use operion.Nodes.Validation.{new_switch_node-validate_switch}
use operion.Models.Value.{
  as_string, as_slice, as_object, slice, item, no_items, Value, string, nil, object, field,
  no_fields,
}
use operion.Models.Workflow.{Workflow, WorkflowNode, status_published, category_action}
use operion.Models.Execution.{ExecutionContext, execution_running}
use operion.Models.Event.{NodeActivation}
use operion.Models.Source.{no_sources}
use operion.Models.Database.{empty_database}
use operion.Store.{World, done, fail, ok}
use operion.Registry.{Registry}
use operion.Template.{Engine}
use operion.Nodes.Switch.{
  new_switch_node, validate_switch, read_cases, read_case, SwitchNode, execute_switch,
  switch_output_ports,
}
use operion.Nodes.Conditional.{ConditionalNode}
use operion.Nodes.Transform.{TransformNode, execute_transform, transform_node}
use operion.Nodes.Merge.Inputs.{Distinct, Merges, execute_merge-Merges}
use operion.Nodes.Merge.{execute_merge, MergeNode, mode_all}
use operion.Nodes.Contract.{outputs_on, execute_switch-outputs_on}
use operion.Worker.Handler.{
  handle_node_activation, after_node, after_add_input, after_context, after_execute, after_update,
  stored_in, choose_execution,
}
use operion.Worker.Manager.{
  activate_each, activate_next_nodes, activation_along, activation_of, publish,
  publish_node_completion_event, completion_of, output_data, data_map, input_result,
  execute_node_with_inputs, get_node_input_requirements, store_results,
}
use operion.Worker.Coordinator.{
  add_input, new_state, with_input, has_input, is_node_ready, get_pending_node_execution,
  cleanup_node_execution, generate_node_execution_id,
}
use operion.Store.{io}
use operion.Store.Workflows.{get_by_id, write_file, lists_before}
use operion.Store.Contexts.{get_execution_context, update_execution_context, save_execution_context}
use operion.Store.Inputs.{
  save_input_state, load_input_state, delete_input_state, find_pending_node_execution, scan_states,
  read_state, is_inside, is_pending_for, keep_oldest,
}
use operion.Store.Nodes.{
  get_workflow, get_node_by_workflow, find_by_id, get_connections_by_source_node, comes_from,
}
use operion.Store.Path.{validate_id, contains, join, clean}
use operion.Registry.{create_node}
use operion.Template.{
  render_with_context, render, template_data, flatten_results, read_rendered, trim_space, ends_with,
  parse_bool, looks_like_json,
}
use operion.Nodes.Transform.{transform_node, execute_transform, transformed, transform_requirements}
use operion.Nodes.Common.{success_on, node_result, wait_for, create_error_result}
use operion.Models.Port.{parse_port_id}
use operion.Base.{lookup, insert, insert_by, delete}
use operion.Models.Execution.{default_input_requirements}
use operion.Models.Event.{activation, completion, publish_failed}
use operion.Models.Execution.{node_success, NodeResult}
use operion.Worker.Handler.Sent.{Activated, Completed}
use operion.Worker.Handler.Bus.{handle_node_activation-published, handle_node_activation-on_error}

abbrev plain : Value → String
plain (string s) = s
plain _ = ""

-- Templates without actions, none of whose texts is a number.
abbrev engine : Engine
engine = record {
  env = [];
  expand = λ text _. ok text;
  parse_json = λ _. none;
  parse_float = λ _. none;
  format = plain;
}

abbrev context : ExecutionContext
context = record {
  id = "execution";
  workflow_id = "workflow";
  status = execution_running;
  node_results = [];
  trigger_data = [];
  variables = [];
  metadata = [];
  error_message = "";
  created_at = 1;
  completed_at = none;
}

abbrev routes : SwitchNode
routes = record { id = "switch"; value = "green"; cases = ("red", "stop") ∷ ("green", "go") ∷ [] }

execute_switch-outputs_on_example :
    outputs_on (switch_output_ports routes) (execute_switch engine routes context []) ≡ true
execute_switch-outputs_on_example = execute_switch-outputs_on engine routes context []

abbrev question : ConditionalNode
question = record { id = "conditional"; condition = "true" }

abbrev greeting : TransformNode
greeting = record { id = "transform"; expression = "hello" }

abbrev both : MergeNode
both = record { id = "merge"; input_ports = "a" ∷ "b" ∷ []; merge_mode = mode_all }

abbrev registry : Registry
registry = record {
  node_factories =
      (
        "transform",
        record { id = "transform"; create = λ _ _. ok (transform_node engine greeting) },
      )
      ∷ [];
  provider_factories = [];
}

abbrev node : String → WorkflowNode
node id = record {
  id = id;
  type = "transform";
  category = category_action;
  config = [];
  name = id;
  enabled = true;
  source_id = none;
  provider_id = none;
  event_type = none;
}

abbrev two_nodes : Workflow
two_nodes = record {
  id = "workflow";
  name = "Greeting";
  description = "";
  status = status_published;
  workflow_group_id = "greeting";
  nodes = node "first" ∷ node "second" ∷ [];
  connections =
      record { id = "c"; source_port = "first:success"; target_port = "second:main" } ∷ [];
  variables = [];
  metadata = [];
  owner = "";
  created_at = 1;
  updated_at = 1;
  published_at = some 1;
  deleted_at = none;
}

abbrev world : World
world = record {
  root = "data";
  workflows = ("workflow", two_nodes) ∷ [];
  contexts = ("execution", context) ∷ [];
  input_states = [];
  bus = [];
  sources = no_sources;
  database = empty_database;
  now = 2;
  ids = 0;
  faults = [];
}

abbrev first_activated : NodeActivation
first_activated = record {
  execution_id = "execution";
  node_id = "first";
  workflow_id = "workflow";
  input_port = "main";
  input_data = nil;
  source_node = "";
  source_port = "";
}

abbrev uuid : ℕ → String
uuid n = "0a1b2c3d-0000"

abbrev second_activated : NodeActivation
second_activated = record {
  execution_id = "execution";
  node_id = "second";
  workflow_id = "workflow";
  input_port = "main";
  input_data = object (field "result" (string "hello") no_fields);
  source_node = "first";
  source_port = "success";
}

abbrev hello : NodeResult
hello = record {
  node_id = "transform";
  fields = ("result", string "hello") ∷ [];
  status = node_success;
  timestamp = 0;
  error = "";
}

abbrev outputs : Dict NodeResult
outputs = ("success", hello) ∷ []

-- The second node has been activated and the first one completed.
abbrev world_after : World
world_after = record world {
  contexts = ("execution", record context { node_results = ("first::success", hello) ∷ [] }) ∷ [];
  bus =
      ("second:execution", activation second_activated)
      ∷ ("first:execution", completion (completion_of first_activated outputs none))
      ∷ [];
  ids = 1;
}

handles : handle_node_activation uuid registry first_activated world ≡ done tt world_after
unfolding handle_node_activation after_node after_add_input after_context after_execute after_update
    stored_in choose_execution activate_each activate_next_nodes activation_along activation_of
    publish publish_node_completion_event completion_of output_data data_map input_result
    execute_node_with_inputs get_node_input_requirements store_results add_input new_state
    with_input has_input is_node_ready get_pending_node_execution cleanup_node_execution
    generate_node_execution_id io get_by_id write_file lists_before get_execution_context
    update_execution_context save_execution_context save_input_state load_input_state
    delete_input_state find_pending_node_execution scan_states read_state is_inside is_pending_for
    keep_oldest get_workflow get_node_by_workflow find_by_id get_connections_by_source_node
    comes_from validate_id contains join clean create_node render_with_context render template_data
    flatten_results read_rendered trim_space ends_with parse_bool looks_like_json transform_node
    execute_transform transformed transform_requirements success_on node_result wait_for
    create_error_result parse_port_id lookup insert insert_by delete default_input_requirements
handles = refl

-- The eleventh operation, which publishes the completion, fails.
abbrev eleventh_fails : List Bool
eleventh_fails =
    false ∷ false ∷ false ∷ false ∷ false ∷ false ∷ false ∷ false ∷ false ∷ false ∷ true ∷ []

abbrev unstable : World
unstable = record world { faults = eleventh_fails }

abbrev broken : World
broken = record world_after { bus = ("second:execution", activation second_activated) ∷ [] }

breaks : handle_node_activation uuid registry first_activated unstable ≡ fail publish_failed broken
unfolding handle_node_activation after_node after_add_input after_context after_execute after_update
    stored_in choose_execution activate_each activate_next_nodes activation_along activation_of
    publish publish_node_completion_event completion_of output_data data_map input_result
    execute_node_with_inputs get_node_input_requirements store_results add_input new_state
    with_input has_input is_node_ready get_pending_node_execution cleanup_node_execution
    generate_node_execution_id io get_by_id write_file lists_before get_execution_context
    update_execution_context save_execution_context save_input_state load_input_state
    delete_input_state find_pending_node_execution scan_states read_state is_inside is_pending_for
    keep_oldest get_workflow get_node_by_workflow find_by_id get_connections_by_source_node
    comes_from validate_id contains join clean create_node render_with_context render template_data
    flatten_results read_rendered trim_space ends_with parse_bool looks_like_json transform_node
    execute_transform transformed transform_requirements success_on node_result wait_for
    create_error_result parse_port_id lookup insert insert_by delete default_input_requirements
breaks = refl

handle_node_activation-published_example :
    (world_after.bus ≡ []) ⊎ Completed first_activated [] world_after.bus
handle_node_activation-published_example =
    handle_node_activation-published uuid registry first_activated world world_after handles

handle_node_activation-on_error_example : Activated [] broken.bus
handle_node_activation-on_error_example =
    handle_node_activation-on_error uuid registry first_activated unstable broken publish_failed
      breaks

abbrev switch_config : Dict Value
switch_config =
    ("value", string "green")
    ∷ (
      "cases",
      slice (
          item
            (object (field "value" (string "green") (field "output_port" (string "go") no_fields)))
            no_items),
    )
    ∷ []

abbrev one_route : SwitchNode
one_route = record { id = "switch"; value = "green"; cases = ("green", "go") ∷ [] }

switch_made : new_switch_node "switch" switch_config ≡ ok one_route
unfolding new_switch_node read_cases read_case as_string as_slice as_object lookup insert insert_by
switch_made = refl

new_switch_node-validate_switch_example : validate_switch switch_config ≡ none
new_switch_node-validate_switch_example =
    new_switch_node-validate_switch "switch" switch_config one_route switch_made

abbrev two_inputs : Dict NodeResult
two_inputs = ("a", hello) ∷ ("b", hello) ∷ []

two_inputs-Distinct : Distinct two_inputs
unfolding lookup
two_inputs-Distinct = (refl, (refl, tt))

execute_merge-Merges_example : Merges both two_inputs (execute_merge both context two_inputs)
execute_merge-Merges_example =
    execute_merge-Merges both context two_inputs (inl refl) two_inputs-Distinct
