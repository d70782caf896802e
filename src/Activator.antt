-- ===== src/Activator.antt =====
-- The activator: from a source event to the activations of the trigger nodes that it matches
-- (cmd/operion-activator/activator.go).
pub mod Grounded
use operion.Base.{ℕ, suc, String, List, [], ◌∷◌, Dict, none}
use operion.Models.Value.{Value, object, object_of}
use operion.Models.Workflow.{Workflow, TriggerNodeMatch, status_published}
use operion.Models.Execution.{ExecutionContext, execution_running}
use operion.Models.Event.{
  workflow_not_found, activation, NodeActivation, SourceEvent, validate_source_event,
}
use operion.Store.{M, ◌>>=◌, ◌>>◌, pure, gets, modify, require, check, attempt}
use operion.Store.Workflows.{get_by_id}
use operion.Store.Contexts.{save_execution_context}
use operion.Store.Nodes.{find_trigger_nodes}
use operion.Worker.Manager.{publish, event_key}

-- The port that a trigger node takes an event of a source on.
abbrev pub external_port : String
external_port = "external"

-- `findTriggerNodesForSourceEvent`.
unfoldable pub find_trigger_nodes_for_source_event : SourceEvent → M (List TriggerNodeMatch)
find_trigger_nodes_for_source_event e =
    find_trigger_nodes e.source_id e.event_type e.provider_id status_published

unfoldable pub trigger_context : String → String → Workflow → Dict Value → ℕ → ExecutionContext
trigger_context execution workflow x source_data now = record {
  id = execution;
  workflow_id = workflow;
  status = execution_running;
  node_results = [];
  trigger_data = source_data;
  variables = x.variables;
  metadata = [];
  error_message = "";
  created_at = now;
  completed_at = none;
}

unfoldable pub trigger_activation : String → String → String → Dict Value → NodeActivation
trigger_activation execution workflow node source_data = record {
  execution_id = execution;
  node_id = node;
  workflow_id = workflow;
  input_port = external_port;
  input_data = object (object_of source_data);
  source_node = "";
  source_port = "";
}

-- The texts of the identifiers that the event bus generates, in turn.
module _ (generate : ℕ → String) where
  unfoldable pub generate_id : M String
  generate_id = do
    n ← gets (λ w. w.ids)
    modify (λ w. record w { ids = suc w.ids })
    pure (generate n)

  -- `publishNodeActivation`: the context of the new execution is saved before the event goes out.
  unfoldable pub publish_node_activation : String → String → Dict Value → M (Unit {0})
  publish_node_activation workflow node source_data = do
    execution ← generate_id
    found ← get_by_id workflow
    x ← require (workflow_not_found workflow) found
    now ← gets (λ w. w.now)
    save_execution_context (trigger_context execution workflow x source_data now)
    event_id ← generate_id
    publish (event_key node execution)
        (activation (trigger_activation execution workflow node source_data))

  -- The loop over the matches; one that cannot be activated is passed over.
  unfoldable pub activate_matches : Dict Value → List TriggerNodeMatch → M (Unit {0})
  activate_matches source_data [] = pure tt
  activate_matches source_data (m ∷ ms) = do
    sent ← attempt (publish_node_activation m.workflow_id m.trigger_node.id source_data)
    activate_matches source_data ms

  -- `handleSourceEvent`.
  unfoldable pub handle_source_event : SourceEvent → M (Unit {0})
  handle_source_event e = do
    check (validate_source_event e)
    matches ← find_trigger_nodes_for_source_event e
    activate_matches e.event_data matches
