-- ===== src/Providers/Mapped.antt =====
-- Configuring a provider maps trigger nodes only to sources that there are, if its step for a
-- trigger node gives only such sources and takes none away (pkg/providers, `Configure`).
use operion.Base.{
  String, Bool, true, false, ◌&&◌, ◌==◌, ◌≡◌, refl, ◌⊎◌, inl, inr, Bool-cases, List, [], ◌∷◌, All,
  Dict, insert, insert_by, values,
}
use operion.Models.Workflow.{Workflow, WorkflowNode, is_trigger_node, status_published}
use operion.Store.{World, M}
use operion.Store.Ensures.{Ensures, returns, >>=-Ensures, Never}
use operion.Providers.{configure, configure_nodes, process_if, nodes_if, points_to, with_source}

All-insert :
    (Q : String → Type 0) (k v : String) (m : Dict String)
    → Q v
    → All Q (values m)
    → All Q (values (insert k v m))
unfolding insert insert_by
All-insert Q k v [] q h = (q, tt)
All-insert Q k v ((j, w) ∷ m) q (p, h) = elim (Bool-cases (j == k)) [
  | inl e ↦ rw e (q, h)
  | inr e ↦ rw e (p, All-insert Q k v m q h)
]

module _ (P : World → Type 0) (Q : String → World → Type 0) where
  -- A source that a step may give in this world, where some are mapped: there are all of them.
  unfoldable pub Gives : List String → String → World → Type 0
  Gives sources source w = P w × (((source == "") ≡ true) ⊎ Q source w) × All (λ s. Q s w) sources

  with_source-All :
      (node source : String) (m : Dict String) (w : World)
      → Gives (values m) source w
      → All (λ s. Q s w) (values (with_source node source m))
  unfolding Gives
  with_source-All node source m w (p, inl e, h) = rw e h
  with_source-All node source m w (p, inr q, h) = elim (Bool-cases (source == "")) [
    | inl e ↦ rw e h
    | inr e ↦ rw e (All-insert (λ s. Q s w) node source m q h)
  ]

  module _ (provider : String) (process : WorkflowNode → M String)
      (step : (n : WorkflowNode) (sources : List String) (w : World)
        → P w
        → All (λ s. Q s w) sources
        → Ensures (Gives sources) Never (process n w)) where
    process_if-Gives :
        (b : Bool) (n : WorkflowNode) (sources : List String) (w : World)
        → P w
        → All (λ s. Q s w) sources
        → Ensures (Gives sources) Never (process_if provider process b n w)
    unfolding Gives
    process_if-Gives true n sources w p h = step n sources w p h
    process_if-Gives false n sources w p h = returns (p, inl refl, h)

    configure_nodes-All :
        (ns : List WorkflowNode) (m : Dict String) (w : World)
        → P w
        → All (λ s. Q s w) (values m)
        → Ensures
            (λ mapped v. P v × All (λ s. Q s v) (values mapped))
            Never
            (configure_nodes provider process ns m w)
    unfolding configure_nodes Gives
    configure_nodes-All [] m w p h = returns (p, h)
    configure_nodes-All (n ∷ ns) m w p h =
        >>=-Ensures
          (process_if provider process (is_trigger_node n && points_to n.provider_id provider) n)
          (λ source. configure_nodes provider process ns (with_source n.id source m)) w
          (process_if-Gives (is_trigger_node n && points_to n.provider_id provider) n (values m) w p
            h)
          (λ source v g.
            configure_nodes-All ns (with_source n.id source m) v g.0
              (with_source-All n.id source m v g))

    pub configure-All :
        (xs : List Workflow) (m : Dict String) (w : World)
        → P w
        → All (λ s. Q s w) (values m)
        → Ensures
            (λ mapped v. P v × All (λ s. Q s v) (values mapped))
            Never
            (configure provider process xs m w)
    unfolding configure
    configure-All [] m w p h = returns (p, h)
    configure-All (x ∷ xs) m w p h =
        >>=-Ensures
          (configure_nodes provider process
            (nodes_if provider process (x.status == status_published) x.nodes) m)
          (λ mapped. configure provider process xs mapped) w
          (configure_nodes-All (nodes_if provider process (x.status == status_published) x.nodes) m
            w p h)
          (λ mapped v g. configure-All xs mapped v g.0 g.1)
