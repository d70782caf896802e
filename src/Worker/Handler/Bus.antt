-- ===== src/Worker/Handler/Bus.antt =====
-- What the handler of activations publishes: activations of the next nodes, and one completion.
use operion.Base.{
  ℕ, String, ◌≡◌, refl, sym, ap, ◌∙◌, ◌⊎◌, inl, inr, Bool, true, false, [], ◌∷◌, ◌++◌, Dict, Option,
  none, some,
}
use mathlib.Core.Path.{subst}
use mathlib.Core.List.{append_assoc, append-nil}
use operion.Models.Workflow.{WorkflowNode}
use operion.Models.Execution.{NodeResult, ExecutionContext, NodeInputState}
use operion.Models.Event.{Error, NodeActivation, completion, node_not_found, context_not_found}
use operion.Store.{World, done, fail, M, Result, ok, err, ◌>>=◌, attempt, pure, gets}
use operion.Store.Ensures.{
  Ensures, returns, Acts-Ensures, Ensures-weaken, >>=-Ensures, of_done, of_fail,
}
use operion.Store.Contexts.{get_execution_context, update_execution_context}
use operion.Store.Inputs.{find_pending_node_execution}
use operion.Store.Nodes.{get_node_by_workflow, get_connections_by_source_node}
use operion.Store.Silent
use operion.Store.Silent.{IsSilent, IsSilent-bind, IsSilent-attempt, IsSilent-pure, IsSilent-gets}
use operion.Registry.{Registry}
use operion.Worker.Coordinator.{add_input, get_pending_node_execution, cleanup_node_execution}
use operion.Worker.Manager.{
  event_key, completion_of, publish_node_completion_event, activate_each, activate_next_nodes,
  input_result, get_node_input_requirements, execute_node_with_inputs,
}
use operion.Worker.Handler.{
  choose_execution, after_update, after_execute, after_context, after_add_input, after_node,
  handle_node_activation, stored_in,
}
use operion.Worker.Handler.Sent.{
  Bus, Activated, Completed, published, publish-Acts, activate_each-Activated, add_input-IsSilent,
  choose-IsSilent,
}

-- The handler of the activation `a`, where the bus held `b` before.
module _ (uuid : ℕ → String) (r : Registry) (a : NodeActivation) (b : Bus) where
  abbrev Handles : M (Unit {0}) → Type 0
  Handles m =
      (v : World)
      → v.bus ≡ b
      → Ensures (λ _ w'. (w'.bus ≡ b) ⊎ Completed a b w'.bus) (λ _ w'. Activated b w'.bus) (m v)

  silent_then :
      {A : Type 0} (m : M A) (f : A → M (Unit {0}))
      → IsSilent m
      → ((x : A) → Handles (f x))
      → Handles (m >>= f)
  silent_then m f h k v e =
      >>=-Ensures m f v
        (Ensures-weaken (λ _ u p. p ∙ e) (λ _ u p. ([], tt, p ∙ e ∙ sym (append-nil b))) (h v))
        (λ x u p. k x u p)

  -- The completion, after some activations may have been published.
  complete-Sent :
      (outputs : Dict NodeResult) (error : Option Error) (v : World)
      → Activated b v.bus
      → Ensures
          (λ _ w'. (w'.bus ≡ b) ⊎ Completed a b w'.bus)
          (λ _ w'. Activated b w'.bus)
          (publish_node_completion_event a outputs error v)
  unfolding publish_node_completion_event published
  complete-Sent outputs error v (sent, hs, p) =
      let last : Bus =
        (event_key a.node_id a.execution_id, completion (completion_of a outputs error)) ∷ [] in
      Acts-Ensures
        (publish-Acts (event_key a.node_id a.execution_id)
          (completion (completion_of a outputs error)) v)
        (λ gs _.
          inr (sent, outputs, error, hs, ap (λ (l : Bus). l ++ last) p ∙ append_assoc b sent last))
        (λ gs _. (sent, hs, p))

  complete-Handles :
      (outputs : Dict NodeResult) (error : Option Error)
      → Handles (publish_node_completion_event a outputs error)
  complete-Handles outputs error v e =
      complete-Sent outputs error v ([], tt, e ∙ sym (append-nil b))

  next-Activated :
      (outputs : Dict NodeResult) (v : World)
      → v.bus ≡ b
      → Ensures
          (λ _ w'. Activated b w'.bus)
          (λ _ w'. Activated b w'.bus)
          (activate_next_nodes a.workflow_id a.execution_id a.node_id outputs v)
  unfolding activate_next_nodes
  next-Activated outputs v e =
      >>=-Ensures (get_connections_by_source_node a.workflow_id a.node_id) _ v
        (Ensures-weaken (λ _ u p. p ∙ e) (λ _ u p. ([], tt, p ∙ e ∙ sym (append-nil b)))
          (Silent.get_connections_by_source_node-IsSilent a.workflow_id a.node_id v))
        (λ cs u p.
          subst
            (λ (c : Bus).
              Ensures (λ _ w'. Activated c w'.bus) (λ _ w'. Activated c w'.bus)
                (activate_each a.workflow_id a.execution_id a.node_id outputs cs u))
            p (activate_each-Activated a.workflow_id a.execution_id a.node_id outputs cs u))

  after_update-Handles :
      (id : String) (outputs : Dict NodeResult) (x : Result (Unit {0}))
      → Handles (after_update uuid r a id outputs x)
  unfolding after_update
  after_update-Handles id outputs (err e) = complete-Handles outputs (some e)
  after_update-Handles id outputs (ok _) =
      silent_then (attempt (cleanup_node_execution id)) _
        (IsSilent-attempt (cleanup_node_execution id)
          (unfold cleanup_node_execution in Silent.delete_input_state-IsSilent id))
        (λ _ v e.
          >>=-Ensures (activate_next_nodes a.workflow_id a.execution_id a.node_id outputs) _ v
            (next-Activated outputs v e) (λ _ u sent. complete-Sent outputs none u sent))

  after_execute-Handles :
      (id : String) (c : ExecutionContext) (x : Result (Dict NodeResult))
      → Handles (after_execute uuid r a id c x)
  unfolding after_execute
  after_execute-Handles id c (err e) = complete-Handles [] (some e)
  after_execute-Handles id c (ok outputs) =
      silent_then (attempt (update_execution_context (stored_in uuid r a c outputs))) _
        (IsSilent-attempt (update_execution_context (stored_in uuid r a c outputs))
          (Silent.update_execution_context-IsSilent (stored_in uuid r a c outputs)))
        (λ x. after_update-Handles id outputs x)

  after_context-Handles :
      (n : WorkflowNode) (id : String) (s : NodeInputState) (x : Result (Option ExecutionContext))
      → Handles (after_context uuid r a n id s x)
  unfolding after_context
  after_context-Handles n id s (err e) = complete-Handles [] (some e)
  after_context-Handles n id s (ok none) =
      complete-Handles [] (some (context_not_found a.execution_id))
  after_context-Handles n id s (ok (some c)) =
      after_execute-Handles id c (execute_node_with_inputs r n s.received_inputs c)

  found-IsSilent : {A : Type 0} (m : M A) → IsSilent m → IsSilent (m >>= λ x. pure (some x))
  found-IsSilent m h = IsSilent-bind m _ h (λ x. IsSilent-pure (some x))

  after_add_input-Handles :
      (n : WorkflowNode) (id : String) (x : Result (NodeInputState × Bool))
      → Handles (after_add_input uuid r a n id x)
  unfolding after_add_input
  after_add_input-Handles n id (err e) = complete-Handles [] (some e)
  after_add_input-Handles n id (ok (s, false)) = λ v e. returns (inl e)
  after_add_input-Handles n id (ok (s, true)) =
      silent_then (attempt (get_execution_context a.execution_id >>= λ x. pure (some x))) _
        (IsSilent-attempt _
          (found-IsSilent _ (Silent.get_execution_context-IsSilent a.execution_id)))
        (λ c. after_context-Handles n id s c)

  after_node-Handles : (x : Result (Option WorkflowNode)) → Handles (after_node uuid r a x)
  unfolding after_node get_pending_node_execution
  after_node-Handles (err e) = complete-Handles [] (some e)
  after_node-Handles (ok none) = complete-Handles [] (some (node_not_found a.node_id))
  after_node-Handles (ok (some n)) =
      silent_then (attempt (find_pending_node_execution a.node_id a.execution_id)) _
        (IsSilent-attempt _ (Silent.find_pending_node_execution-IsSilent a.node_id a.execution_id))
        (λ pending.
          silent_then (choose_execution uuid r a pending) _ (choose-IsSilent uuid r a pending)
            (λ id. silent_then (gets (λ w. w.now)) _ (IsSilent-gets _) (λ now.
              silent_then
                (attempt (
                  add_input a.node_id a.execution_id id a.input_port (input_result a now)
                    (get_node_input_requirements r n)))
                _
                (IsSilent-attempt _ (
                  add_input-IsSilent a.node_id a.execution_id id a.input_port (input_result a now)
                    (get_node_input_requirements r n)))
                (λ x. after_add_input-Handles n id x))))

  handle-Handles : Handles (handle_node_activation uuid r a)
  unfolding handle_node_activation
  handle-Handles =
      silent_then (attempt (get_node_by_workflow a.workflow_id a.node_id >>= λ x. pure (some x))) _
        (IsSilent-attempt _
          (found-IsSilent _ (Silent.get_node_by_workflow-IsSilent a.workflow_id a.node_id)))
        (λ x. after_node-Handles x)

-- If the handler of an activation returns no error, whatever failed on the way, it has published
-- nothing, or some activations of nodes and after them one completion of the activation.
pub handle_node_activation-published :
    (uuid : ℕ → String) (r : Registry) (a : NodeActivation) (w w' : World)
    → handle_node_activation uuid r a w ≡ done tt w'
    → (w'.bus ≡ w.bus) ⊎ Completed a w.bus w'.bus
handle_node_activation-published uuid r a w w' p = of_done (handle-Handles uuid r a w.bus w refl) p

-- If the handler of an activation returns an error, it has published some activations of nodes, or
-- none, and nothing else; in particular no completion.
pub handle_node_activation-on_error :
    (uuid : ℕ → String) (r : Registry) (a : NodeActivation) (w w' : World) (error : Error)
    → handle_node_activation uuid r a w ≡ fail error w'
    → Activated w.bus w'.bus
handle_node_activation-on_error uuid r a w w' error p =
    of_fail (handle-Handles uuid r a w.bus w refl) p
