-- ===== src/Worker/Handler/Kept.antt =====
-- What the steps of the handler of activations keep (cmd/operion-worker).
use operion.Base.{String, ◌≡◌, refl, List, [], ◌∷◌, Dict, Option, none, some, lookup}
use operion.Models.Port.{parse_port_id}
use operion.Models.Workflow.{Connection}
use operion.Models.Execution.{NodeResult, ExecutionContext}
use operion.Models.Event.{NodeActivation}
use operion.Store.{attempt}
use operion.Store.Preserves.{Preserves, Preserves-pure, Preserves-attempt, Preserves-bind}
use operion.Store.Contexts.{get_execution_context, update_execution_context}
use operion.Store.Nodes.{get_connections_by_source_node}
use operion.Worker.Manager.{
  event_key, activation_of, activation_along, activation_by, along, publish_activation,
  activate_each, activate_next_nodes,
}
use operion.Worker.Grounded.{GroundedWith, publish-Preserves, save_execution_context-Preserves}
use operion.Worker.Grounded.Reading

abbrev IsOf : String → Option NodeActivation → Type 0
IsOf execution none = Unit
IsOf execution (some a) = a.execution_id ≡ execution

activation_by-IsOf :
    (workflow execution source port target target_port : String) (o : Option NodeResult)
    → IsOf execution (activation_by workflow execution source port target target_port o)
unfolding activation_of
activation_by-IsOf workflow execution source port target target_port none = tt
activation_by-IsOf workflow execution source port target target_port (some result) = refl

along-IsOf :
    (workflow execution source : String) (outputs : Dict NodeResult)
    (p q : Option (String × String))
    → IsOf execution (along workflow execution source outputs p q)
along-IsOf workflow execution source outputs none q = tt
along-IsOf workflow execution source outputs (some p) none = tt
along-IsOf workflow execution source outputs (some (node, port)) (some (target, target_port)) =
    activation_by-IsOf workflow execution source port target target_port (lookup port outputs)

-- An activation along a connection is of the execution that it was made for.
activation_along-IsOf :
    (workflow execution source : String) (outputs : Dict NodeResult) (c : Connection)
    → IsOf execution (activation_along workflow execution source outputs c)
unfolding activation_along
activation_along-IsOf workflow execution source outputs c =
    along-IsOf workflow execution source outputs (parse_port_id c.source_port)
      (parse_port_id c.target_port)

publish_activation-Preserves :
    (execution : String) (o : Option NodeActivation)
    → IsOf execution o
    → Preserves (GroundedWith execution) (publish_activation o)
publish_activation-Preserves execution none h = Preserves-pure (GroundedWith execution) tt
publish_activation-Preserves execution (some a) h =
    publish-Preserves execution (event_key a.node_id a.execution_id) a h

module _ (workflow execution source : String) (outputs : Dict NodeResult) where
  activate_each-Preserves :
      (cs : List Connection)
      → Preserves (GroundedWith execution) (activate_each workflow execution source outputs cs)
  unfolding activate_each
  activate_each-Preserves [] = Preserves-pure (GroundedWith execution) tt
  activate_each-Preserves (c ∷ cs) =
      let one = publish_activation (activation_along workflow execution source outputs c) in
      Preserves-bind (GroundedWith execution) (attempt one) _
        (Preserves-attempt (GroundedWith execution) one (
          publish_activation-Preserves execution _
            (activation_along-IsOf workflow execution source outputs c)))
        (λ sent. activate_each-Preserves cs)

  pub activate_next_nodes-Preserves :
      Preserves (GroundedWith execution) (activate_next_nodes workflow execution source outputs)
  unfolding activate_next_nodes
  activate_next_nodes-Preserves =
      Preserves-bind (GroundedWith execution) (get_connections_by_source_node workflow source) _
        (Reading.get_connections-Preserves (GroundedWith execution) (λ _ _ g. g) (λ _ _ g. g)
          (λ _ _ g. g) workflow source)
        (λ cs. activate_each-Preserves cs)

pub update_execution_context-Preserves :
    (execution : String) (c : ExecutionContext)
    → Preserves (GroundedWith execution) (update_execution_context c)
unfolding update_execution_context
update_execution_context-Preserves execution c =
    Preserves-bind (GroundedWith execution) (get_execution_context c.id) _
      (Reading.get_execution_context-Preserves (GroundedWith execution) (λ _ _ g. g) (λ _ _ g. g)
        (λ _ _ g. g) c.id)
      (λ old. save_execution_context-Preserves execution c)
