-- ===== src/Worker/Handler/Grounded.antt =====
-- The worker publishes activations only of executions whose contexts are saved.
use operion.Base.{ℕ, String, Bool, true, false, [], Dict, Option, none, some}
use operion.Models.Workflow.{WorkflowNode}
use operion.Models.Execution.{NodeResult, ExecutionContext, NodeInputState}
use operion.Models.Event.{Error, NodeActivation, node_not_found, context_not_found}
use operion.Store.{World, Outcome, done, fail, Result, ok, err, ◌>>=◌, pure, gets, attempt}
use operion.Store.Ensures.{
  Ensures, Ensures-done, Ensures-fail, returns, Ensures-weaken, >>=-Ensures,
}
use operion.Store.Preserves.{
  Preserves, Preserves-pure, Preserves-gets, Preserves-attempt, Preserves-bind, Leaves,
}
use operion.Store.Contexts.{get_execution_context, update_execution_context}
use operion.Store.Inputs.{find_pending_node_execution}
use operion.Store.Nodes.{get_node_by_workflow}
use operion.Registry.{Registry}
use operion.Worker.Coordinator.{add_input, cleanup_node_execution, get_pending_node_execution}
use operion.Worker.Manager.{
  completion_of, publish_node_completion_event, activate_next_nodes, input_result,
  get_node_input_requirements, execute_node_with_inputs,
}
use operion.Worker.Handler.{
  choose_execution, after_update, after_execute, after_context, after_add_input, after_node,
  handle_node_activation, stored_in,
}
use operion.Worker.Grounded.{
  Grounded, GroundedWith, completion-Preserves, completion-Grounded,
  get_execution_context-GroundedWith,
}
use operion.Worker.Grounded.Reading
use operion.Worker.Handler.Kept.{activate_next_nodes-Preserves, update_execution_context-Preserves}

module _ (uuid : ℕ → String) (r : Registry) (a : NodeActivation) where
  complete-Preserves :
      (outputs : Dict NodeResult) (error : Option Error)
      → Preserves (GroundedWith a.execution_id) (publish_node_completion_event a outputs error)
  unfolding publish_node_completion_event
  complete-Preserves outputs error =
      completion-Preserves a.execution_id _ (completion_of a outputs error)

  complete-Grounded :
      (outputs : Dict NodeResult) (error : Option Error)
      → Preserves Grounded (publish_node_completion_event a outputs error)
  unfolding publish_node_completion_event
  complete-Grounded outputs error = completion-Grounded _ (completion_of a outputs error)

  after_update-Preserves :
      (id : String) (outputs : Dict NodeResult) (x : Result (Unit {0}))
      → Preserves (GroundedWith a.execution_id) (after_update uuid r a id outputs x)
  unfolding after_update cleanup_node_execution
  after_update-Preserves id outputs (err e) = complete-Preserves outputs (some e)
  after_update-Preserves id outputs (ok _) =
      Preserves-bind (GroundedWith a.execution_id) (attempt (cleanup_node_execution id)) _
        (Preserves-attempt (GroundedWith a.execution_id) _ (
          Reading.delete_input_state-Preserves (GroundedWith a.execution_id) (λ _ _ g. g)
            (λ _ _ g. g) (λ _ _ g. g) id))
        (λ cleaned.
          Preserves-bind (GroundedWith a.execution_id)
            (activate_next_nodes a.workflow_id a.execution_id a.node_id outputs) _
            (activate_next_nodes-Preserves a.workflow_id a.execution_id a.node_id outputs)
            (λ _. complete-Preserves outputs none))

  after_execute-Preserves :
      (id : String) (c : ExecutionContext) (x : Result (Dict NodeResult))
      → Preserves (GroundedWith a.execution_id) (after_execute uuid r a id c x)
  unfolding after_execute
  after_execute-Preserves id c (err e) = complete-Preserves [] (some e)
  after_execute-Preserves id c (ok outputs) =
      let stored = stored_in uuid r a c outputs in
      Preserves-bind (GroundedWith a.execution_id) (attempt (update_execution_context stored)) _
        (Preserves-attempt (GroundedWith a.execution_id) _
          (update_execution_context-Preserves a.execution_id stored))
        (λ updated. after_update-Preserves id outputs updated)

  -- What is known once the handler has asked for the context.
  Fetched : Result (Option ExecutionContext) → World → Type 0
  Fetched (ok (some c)) w = GroundedWith a.execution_id w
  Fetched (ok none) w = Grounded w
  Fetched (err e) w = Grounded w

  after_context-Leaves :
      (n : WorkflowNode) (id : String) (s : NodeInputState) (x : Result (Option ExecutionContext))
      (w : World)
      → Fetched x w
      → Leaves Grounded (after_context uuid r a n id s x w)
  unfolding after_context Fetched
  after_context-Leaves n id s (err e) w g = complete-Grounded [] (some e) w g
  after_context-Leaves n id s (ok none) w g =
      complete-Grounded [] (some (context_not_found a.execution_id)) w g
  after_context-Leaves n id s (ok (some c)) w g =
      Ensures-weaken (λ _ _ q. q.0) (λ _ _ q. q.0)
        (after_execute-Preserves id c (execute_node_with_inputs r n s.received_inputs c) w g)

  attempt-Fetched :
      (o : Outcome ExecutionContext)
      → Ensures (λ _ w'. GroundedWith a.execution_id w') (λ _ w'. Grounded w') o
      → Ensures
          (λ x w'. Fetched x w')
          (λ _ w'. Grounded w')
          (elim (elim o as (λ _. Outcome (Option ExecutionContext)) [
            | done c w' ↦ done (some c) w'
            | fail e w' ↦ fail e w'
          ])
            as (λ _. Outcome (Result (Option ExecutionContext))) [
              | done c w' ↦ done (ok c) w'
              | fail e w' ↦ done (err e) w'
            ])
  unfolding Fetched
  attempt-Fetched (done c w') h = returns (Ensures-done h)
  attempt-Fetched (fail e w') h = returns (Ensures-fail h)

  fetch-Fetched :
      (w : World)
      → Grounded w
      → Ensures
          (λ x w'. Fetched x w')
          (λ _ w'. Grounded w')
          (attempt (get_execution_context a.execution_id >>= λ c. pure (some c)) w)
  fetch-Fetched w g = attempt-Fetched _ (get_execution_context-GroundedWith a.execution_id w g)

  after_add_input-Preserves :
      (n : WorkflowNode) (id : String) (x : Result (NodeInputState × Bool))
      → Preserves Grounded (after_add_input uuid r a n id x)
  unfolding after_add_input
  after_add_input-Preserves n id (err e) w g = complete-Grounded [] (some e) w g
  after_add_input-Preserves n id (ok (s, false)) w g = returns g
  after_add_input-Preserves n id (ok (s, true)) w g =
      >>=-Ensures (attempt (get_execution_context a.execution_id >>= λ c. pure (some c))) _ w
        (fetch-Fetched w g) (λ x v h. after_context-Leaves n id s x v h)

  choose-Preserves :
      (x : Result (Option NodeInputState)) → Preserves Grounded (choose_execution uuid r a x)
  unfolding choose_execution
  choose-Preserves (ok (some s)) = Preserves-pure Grounded s.node_execution_id
  choose-Preserves (ok none) =
      Reading.generate-Preserves Grounded (λ _ _ g. g) (λ _ _ g. g) (λ _ _ g. g) uuid
  choose-Preserves (err e) =
      Reading.generate-Preserves Grounded (λ _ _ g. g) (λ _ _ g. g) (λ _ _ g. g) uuid

  after_node-Preserves :
      (x : Result (Option WorkflowNode)) → Preserves Grounded (after_node uuid r a x)
  unfolding after_node get_pending_node_execution
  after_node-Preserves (err e) = complete-Grounded [] (some e)
  after_node-Preserves (ok none) = complete-Grounded [] (some (node_not_found a.node_id))
  after_node-Preserves (ok (some n)) =
      Preserves-bind Grounded (attempt (find_pending_node_execution a.node_id a.execution_id)) _
        (Preserves-attempt Grounded _ (
          Reading.find_pending-Preserves Grounded (λ _ _ g. g) (λ _ _ g. g) (λ _ _ g. g) a.node_id
            a.execution_id))
        (λ pending.
          Preserves-bind Grounded (choose_execution uuid r a pending) _ (choose-Preserves pending)
            (λ id. Preserves-bind Grounded (gets (λ w. w.now)) _ (Preserves-gets Grounded _) (λ now.
              Preserves-bind Grounded
                (attempt (
                  add_input a.node_id a.execution_id id a.input_port (input_result a now)
                    (get_node_input_requirements r n)))
                _
                (Preserves-attempt Grounded _ (
                  Reading.add_input-Preserves Grounded (λ _ _ g. g) (λ _ _ g. g) (λ _ _ g. g)
                    a.node_id a.execution_id id a.input_port (input_result a now)
                    (get_node_input_requirements r n)))
                (λ x. after_add_input-Preserves n id x))))

  pub handle_node_activation-Preserves : Preserves Grounded (handle_node_activation uuid r a)
  unfolding handle_node_activation
  handle_node_activation-Preserves =
      Preserves-bind Grounded
        (attempt (get_node_by_workflow a.workflow_id a.node_id >>= λ n. pure (some n))) _
        (Preserves-attempt Grounded _ (
          Preserves-bind Grounded (get_node_by_workflow a.workflow_id a.node_id) _
            (Reading.get_node_by_workflow-Preserves Grounded (λ _ _ g. g) (λ _ _ g. g) (λ _ _ g. g)
              a.workflow_id a.node_id)
            (λ n. Preserves-pure Grounded (some n))))
        (λ x. after_node-Preserves x)
