-- ===== src/Activator/Grounded.antt =====
-- An activation that is published has its execution context saved (cmd/operion-activator/activator.go).
use operion.Base.{ℕ, suc, String, refl, List, [], ◌∷◌, Dict}
use operion.Models.Value.{Value}
use operion.Models.Workflow.{Workflow, TriggerNodeMatch}
use operion.Models.Event.{activation, SourceEvent, validate_source_event, workflow_not_found}
use operion.Store.{World, ◌>>=◌, ◌>>◌, gets, modify, require, check, attempt}
use operion.Store.Ensures.{Ensures-weaken, >>=-Ensures}
use operion.Store.Preserves.{
  Preserves, Preserves-pure, Preserves-gets, Preserves-require, Preserves-attempt, Preserves-check,
  Preserves-modify, Preserves-bind, Leaves-world_of, world_of,
}
use operion.Store.Workflows.{get_by_id, get_all}
use operion.Store.Workflows.Reading.{get_by_id-Preserves, get_all-Preserves}
use operion.Store.Contexts.{save_execution_context}
use operion.Store.Nodes.{find_trigger_nodes}
use operion.Worker.Manager.{publish, event_key}
use operion.Worker.Grounded.{
  Grounded, GroundedWith, save_execution_context-GroundedWith, publish-Preserves,
}
use operion.Activator.{
  find_trigger_nodes_for_source_event, trigger_context, trigger_activation, generate_id,
  publish_node_activation, activate_matches, handle_source_event,
}

-- Taking identifiers leaves the contexts and the bus alone.
generate_id-Preserves :
    (generate : ℕ → String) (P : World → Type 0)
    → ((w : World) (n : ℕ) → P w → P (record w { ids = n }))
    → Preserves P (generate_id generate)
unfolding generate_id
generate_id-Preserves generate P h =
    Preserves-bind P (gets (λ w. w.ids)) _ (Preserves-gets P _) (λ n.
      Preserves-bind P (modify (λ w. record w { ids = suc w.ids })) _
        (Preserves-modify P _ (λ w p. h w (suc w.ids) p)) (λ _. Preserves-pure P (generate n)))

module _ (generate : ℕ → String) where
  publish_node_activation-Preserves :
      (workflow node : String) (source_data : Dict Value)
      → Preserves Grounded (publish_node_activation generate workflow node source_data)
  unfolding publish_node_activation trigger_activation trigger_context
  publish_node_activation-Preserves workflow node source_data =
      Preserves-bind Grounded (generate_id generate) _
        (generate_id-Preserves generate Grounded (λ _ _ g. g))
        (λ execution.
          Preserves-bind Grounded (get_by_id workflow) _
            (get_by_id-Preserves Grounded (λ _ _ g. g) workflow)
            (λ found.
              Preserves-bind Grounded (require (workflow_not_found workflow) found) _
                (Preserves-require Grounded _ found)
                (λ x.
                  Preserves-bind Grounded (gets (λ w. w.now)) _ (Preserves-gets Grounded _)
                    (λ now. saved_and_published execution x now))))
    where
      after_save :
          (execution : String)
          → Preserves (GroundedWith execution) (
              generate_id generate >>= λ event_id.
              publish
                (event_key node execution)
                (activation (trigger_activation execution workflow node source_data)))
      after_save execution =
          Preserves-bind (GroundedWith execution) (generate_id generate) _
            (generate_id-Preserves generate (GroundedWith execution) (λ _ _ g. g))
            (λ event_id. publish-Preserves execution (event_key node execution) _ refl)

      saved_and_published :
          (execution : String) (x : Workflow) (now : ℕ)
          → Preserves Grounded (
              save_execution_context (trigger_context execution workflow x source_data now)
              >> (generate_id generate >>= λ event_id.
                  publish
                    (event_key node execution)
                    (activation (trigger_activation execution workflow node source_data))))
      saved_and_published execution x now w g =
          >>=-Ensures
            (save_execution_context (trigger_context execution workflow x source_data now)) _ w
            (save_execution_context-GroundedWith
              (trigger_context execution workflow x source_data now) w g)
            (λ _ v h. Ensures-weaken (λ _ _ q. q.0) (λ _ _ q. q.0) (after_save execution v h))

  activate_matches-Preserves :
      (source_data : Dict Value) (ms : List TriggerNodeMatch)
      → Preserves Grounded (activate_matches generate source_data ms)
  unfolding activate_matches
  activate_matches-Preserves source_data [] = Preserves-pure Grounded tt
  activate_matches-Preserves source_data (m ∷ ms) =
      Preserves-bind Grounded
        (attempt (publish_node_activation generate m.workflow_id m.trigger_node.id source_data)) _
        (Preserves-attempt Grounded _
          (publish_node_activation-Preserves m.workflow_id m.trigger_node.id source_data))
        (λ sent. activate_matches-Preserves source_data ms)

  handle-Preserves : (e : SourceEvent) → Preserves Grounded (handle_source_event generate e)
  unfolding handle_source_event find_trigger_nodes_for_source_event find_trigger_nodes
  handle-Preserves e =
      Preserves-bind Grounded (check (validate_source_event e)) _ (Preserves-check Grounded _) (λ _.
        Preserves-bind Grounded (find_trigger_nodes_for_source_event e) _
          (Preserves-bind Grounded get_all _ (get_all-Preserves Grounded (λ _ _ g. g))
            (λ xs. Preserves-pure Grounded _))
          (λ ms. activate_matches-Preserves e.event_data ms))

-- If the execution context of each published activation is saved, this is so after the activator
-- has handled a source event, whether it has failed on the way or not.
pub handle_source_event-Grounded :
    (generate : ℕ → String) (e : SourceEvent) (w : World)
    → Grounded w
    → Grounded (world_of (handle_source_event generate e w))
handle_source_event-Grounded generate e w g =
    Leaves-world_of Grounded _ (handle-Preserves generate e w g)
