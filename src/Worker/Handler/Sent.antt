-- ===== src/Worker/Handler/Sent.antt =====
-- What the steps of the handler of activations publish (cmd/operion-worker).
use Prim.Native.String
use Prim.Native.String.{slice}
use operion.Base.{
  ℕ, ◌+◌, String, ◌≡◌, refl, sym, ap, ◌∙◌, List, [], ◌∷◌, ◌++◌, Dict, All, All-append, Option, none,
  some,
}
use mathlib.Core.List.{append_assoc, append-nil}
use operion.Models.Workflow.{Connection}
use operion.Models.Execution.{NodeResult, InputRequirements, NodeInputState}
use operion.Models.Event.{Error, publish_failed, Event, NodeActivation, activation, completion}
use operion.Store.{World, Result, ok, err, io, attempt, gets, modify}
use operion.Store.Ensures.{
  Ensures, returns, Acts, acted, Acts-Ensures, Ensures-weaken, >>=-Ensures, io-Reads, >>=-Acts,
  attempt-Ensures,
}
use operion.Store.Keeps.{Keeps-modify}
use operion.Store.Inputs.{save_input_state, load_input_state}
use operion.Store.Silent
use operion.Store.Silent.{IsSilent, IsSilent-bind, IsSilent-attempt, IsSilent-pure, IsSilent-gets}
use operion.Registry.{Registry}
use operion.Worker.Coordinator.{add_input, generate_node_execution_id}
use operion.Worker.Manager.{
  publish, event_key, completion_of, activation_along, publish_activation, activate_each,
}
use operion.Worker.Handler.{choose_execution}

abbrev pub Bus : Type 0
Bus = List (String × Event)

abbrev pub IsActivation : String × Event → Type 0
IsActivation (_, activation a) = Unit
IsActivation (_, completion c) = ⊥

-- Some activations have been published.
abbrev pub Activated : Bus → Bus → Type 0
Activated b b' = (sent : Bus) × All IsActivation sent × (b' ≡ b ++ sent)

-- Some activations have been published, and then the completion of `a`.
abbrev pub Completed : NodeActivation → Bus → Bus → Type 0
Completed a b b' =
    (sent : Bus) × (outputs : Dict NodeResult) × (error : Option Error) × All IsActivation sent
    × (b'
        ≡ b
          ++ (sent
              ++ (event_key a.node_id a.execution_id, completion (completion_of a outputs error))
                ∷ []))

unfoldable pub published : String → Event → World → World
published key e w = record w { bus = w.bus ++ (key, e) ∷ [] }

pub publish-Acts :
    (key : String) (e : Event) (w : World)
    → Acts publish_failed tt w (published key e w) (publish key e w)
unfolding publish published
publish-Acts key e w =
    >>=-Acts (io publish_failed) _ (io-Reads publish_failed w) (λ gs k. acted gs (λ h. h))

-- An activation that may have been sent along a connection.
send-Activated :
    (a : Option NodeActivation) (w : World)
    → Ensures
        (λ _ w'. Activated w.bus w'.bus)
        (λ _ w'. Activated w.bus w'.bus)
        (publish_activation a w)
unfolding published
send-Activated none w = returns ([], tt, sym (append-nil w.bus))
send-Activated (some a) w =
    Acts-Ensures (publish-Acts (event_key a.node_id a.execution_id) (activation a) w)
      (λ gs _. ((event_key a.node_id a.execution_id, activation a) ∷ [], (tt, tt), refl))
      (λ gs _. ([], tt, sym (append-nil w.bus)))

Activated-trans : (b c d : Bus) → Activated b c → Activated c d → Activated b d
Activated-trans b c d (xs, hs, p) (ys, ks, q) = (
  xs ++ ys,
  All-append IsActivation xs ys hs ks,
  q ∙ ap (λ (l : Bus). l ++ ys) p ∙ append_assoc b xs ys,
)

pub activate_each-Activated :
    (workflow execution source : String) (outputs : Dict NodeResult) (cs : List Connection)
    (w : World)
    → Ensures
        (λ _ w'. Activated w.bus w'.bus)
        (λ _ w'. Activated w.bus w'.bus)
        (activate_each workflow execution source outputs cs w)
unfolding activate_each
activate_each-Activated workflow execution source outputs [] w =
    returns ([], tt, sym (append-nil w.bus))
activate_each-Activated workflow execution source outputs (c ∷ cs) w =
    >>=-Ensures
      (attempt (publish_activation (activation_along workflow execution source outputs c))) _ w
      (attempt-Ensures (publish_activation (activation_along workflow execution source outputs c)) w
        (send-Activated (activation_along workflow execution source outputs c) w))
      (λ _ v p.
        Ensures-weaken (λ _ u q. Activated-trans w.bus v.bus u.bus p q)
          (λ _ u q. Activated-trans w.bus v.bus u.bus p q)
          (activate_each-Activated workflow execution source outputs cs v))

pub add_input-IsSilent :
    (node execution id port : String) (result : NodeResult) (requirements : InputRequirements)
    → IsSilent (add_input node execution id port result requirements)
unfolding add_input
add_input-IsSilent node execution id port result requirements =
    IsSilent-bind (attempt (load_input_state id)) _
      (IsSilent-attempt (load_input_state id) (Silent.load_input_state-IsSilent id))
      (λ loaded. IsSilent-bind (gets (λ w. w.now)) _ (IsSilent-gets _) (λ now.
        IsSilent-bind (save_input_state _) _ (Silent.save_input_state-IsSilent _)
          (λ _. IsSilent-pure _)))

generate-IsSilent : (uuid : ℕ → String) → IsSilent (generate_node_execution_id uuid)
unfolding generate_node_execution_id
generate-IsSilent uuid = IsSilent-bind (gets (λ w. w.ids)) _ (IsSilent-gets _) (λ n.
    IsSilent-bind (modify (λ w. record w { ids = w.ids + 1 })) _
      (Keeps-modify (λ w. w.bus) _ (λ w. refl))
      (λ _. IsSilent-pure (String.◌++◌ "node-exec-" (slice (uuid n) 0 8))))

pub choose-IsSilent :
    (uuid : ℕ → String) (r : Registry) (a : NodeActivation) (p : Result (Option NodeInputState))
    → IsSilent (choose_execution uuid r a p)
unfolding choose_execution
choose-IsSilent uuid r a (ok (some s)) = IsSilent-pure s.node_execution_id
choose-IsSilent uuid r a (ok none) = generate-IsSilent uuid
choose-IsSilent uuid r a (err e) = generate-IsSilent uuid
