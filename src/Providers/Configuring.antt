-- ===== src/Providers/Configuring.antt =====
-- What configuring a provider keeps if its step for a trigger node keeps it (pkg/providers).
use operion.Base.{ℕ, suc, String, Bool, true, false, ◌&&◌, ◌==◌, List, [], ◌∷◌, Dict}
use operion.Models.Workflow.{Workflow, WorkflowNode, is_trigger_node, status_published}
use operion.Store.{World, M, gets, modify}
use operion.Store.Preserves.{
  Preserves, Preserves-pure, Preserves-gets, Preserves-modify, Preserves-bind,
}
use operion.Activator.{generate_id}
use operion.Providers.{configure, configure_nodes, process_if, nodes_if, points_to, with_source}

module _ (P : World → Type 0) (provider : String) (process : WorkflowNode → M String)
    (h : (n : WorkflowNode) → Preserves P (process n)) where
  process_if-Preserves :
      (b : Bool) (n : WorkflowNode) → Preserves P (process_if provider process b n)
  process_if-Preserves true n = h n
  process_if-Preserves false n = Preserves-pure P ""

  configure_nodes-Preserves :
      (ns : List WorkflowNode) (m : Dict String)
      → Preserves P (configure_nodes provider process ns m)
  unfolding configure_nodes
  configure_nodes-Preserves [] m = Preserves-pure P m
  configure_nodes-Preserves (n ∷ ns) m =
      Preserves-bind P _ (λ source. configure_nodes provider process ns (with_source n.id source m))
        (process_if-Preserves (is_trigger_node n && points_to n.provider_id provider) n)
        (λ source. configure_nodes-Preserves ns (with_source n.id source m))

  pub configure-Preserves :
      (xs : List Workflow) (m : Dict String) → Preserves P (configure provider process xs m)
  unfolding configure
  configure-Preserves [] m = Preserves-pure P m
  configure-Preserves (x ∷ xs) m =
      Preserves-bind P _ (λ mapped. configure provider process xs mapped)
        (configure_nodes-Preserves
          (nodes_if provider process (x.status == status_published) x.nodes) m)
        (λ mapped. configure-Preserves xs mapped)

-- Generating an identifier.
pub generate_id-Preserves :
    (P : World → Type 0) (uuid : ℕ → String)
    → ((w : World) (n : ℕ) → P w → P (record w { ids = n }))
    → Preserves P (generate_id uuid)
unfolding generate_id
generate_id-Preserves P uuid h = Preserves-bind P (gets (λ w. w.ids)) _ (Preserves-gets P _) (λ n.
    Preserves-bind P (modify _) _ (Preserves-modify P _ (λ w p. h w (suc w.ids) p))
      (λ _. Preserves-pure P (uuid n)))
