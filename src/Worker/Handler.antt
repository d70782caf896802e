-- ===== src/Worker/Handler.antt =====
-- The worker's handler of node activations (cmd/operion-worker/worker_manager.go).
pub mod Sent
pub mod Bus
pub mod Kept
pub mod Grounded
use operion.Base.{ℕ, String, Bool, true, false, List, [], Dict, Option, none, some}
use operion.Models.Workflow.{WorkflowNode}
use operion.Models.Execution.{NodeResult, ExecutionContext, NodeInputState}
use operion.Models.Event.{node_not_found, context_not_found, NodeActivation}
use operion.Store.{M, Result, ok, err, ◌>>=◌, ◌>>◌, pure, gets, attempt}
use operion.Store.Contexts.{get_execution_context, update_execution_context}
use operion.Store.Nodes.{get_node_by_workflow}
use operion.Registry.{Registry}
use operion.Worker.Coordinator.{
  add_input, get_pending_node_execution, cleanup_node_execution, generate_node_execution_id,
}
use operion.Worker.Manager.{
  publish_node_completion_event, get_node_input_requirements, input_result,
  execute_node_with_inputs, store_results, activate_next_nodes,
}

-- What the handler does from each of its steps on, by the result of that step.
module _ (uuid : ℕ → String) (r : Registry) (a : NodeActivation) where
  -- The context with the node's results.
  unfoldable pub stored_in : ExecutionContext → Dict NodeResult → ExecutionContext
  stored_in c outputs = record c { node_results = store_results a.node_id outputs c.node_results }

  unfoldable pub after_update : String → Dict NodeResult → Result (Unit {0}) → M (Unit {0})
  after_update id outputs (err e) = publish_node_completion_event a outputs (some e)
  after_update id outputs (ok _) = do
    cleaned ← attempt (cleanup_node_execution id)
    activate_next_nodes a.workflow_id a.execution_id a.node_id outputs
    publish_node_completion_event a outputs none

  unfoldable pub after_execute : String → ExecutionContext → Result (Dict NodeResult) → M (Unit {0})
  after_execute id c (err e) = publish_node_completion_event a [] (some e)
  after_execute id c (ok outputs) = do
    updated ← attempt (update_execution_context (stored_in c outputs))
    after_update id outputs updated

  unfoldable pub after_context :
      WorkflowNode → String → NodeInputState → Result (Option ExecutionContext) → M (Unit {0})
  after_context n id state (err e) = publish_node_completion_event a [] (some e)
  after_context n id state (ok none) =
      publish_node_completion_event a [] (some (context_not_found a.execution_id))
  after_context n id state (ok (some c)) =
      after_execute id c (execute_node_with_inputs r n state.received_inputs c)

  unfoldable pub after_add_input :
      WorkflowNode → String → Result (NodeInputState × Bool) → M (Unit {0})
  after_add_input n id (err e) = publish_node_completion_event a [] (some e)
  after_add_input n id (ok (state, false)) = pure tt
  after_add_input n id (ok (state, true)) = do
    c ← attempt (do found ← get_execution_context a.execution_id; pure (some found))
    after_context n id state c

  -- A pending execution is used again; an error of looking for one counts as none.
  unfoldable pub choose_execution : Result (Option NodeInputState) → M String
  choose_execution (ok (some state)) = pure state.node_execution_id
  choose_execution _ = generate_node_execution_id uuid

  unfoldable pub after_node : Result (Option WorkflowNode) → M (Unit {0})
  after_node (err e) = publish_node_completion_event a [] (some e)
  after_node (ok none) = publish_node_completion_event a [] (some (node_not_found a.node_id))
  after_node (ok (some n)) = do
    pending ← attempt (get_pending_node_execution a.node_id a.execution_id)
    id ← choose_execution pending
    now ← gets (λ w. w.now)
    added ← attempt (
        add_input a.node_id a.execution_id id a.input_port (input_result a now)
          (get_node_input_requirements r n))
    after_add_input n id added

  -- `handleNodeActivation`.
  unfoldable pub handle_node_activation : M (Unit {0})
  handle_node_activation = do
    node ← attempt (do found ← get_node_by_workflow a.workflow_id a.node_id; pure (some found))
    after_node node
