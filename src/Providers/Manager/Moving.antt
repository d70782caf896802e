-- ===== src/Providers/Manager/Moving.antt =====
-- Which trigger nodes an update moves to another source
-- (cmd/operion-source-manager/manager.go, `updateTriggersWithSourceIDs`).
use operion.Base.{
  ℕ, String, Bool, true, false, not, ◌&&◌, ◌||◌, ◌==◌, ◌≡◌, refl, ap, ◌∙◌, inl, inr, Bool-cases,
  if◌then◌else◌, List, [], ◌∷◌, map, filter, length, any, Dict, lookup, Option, none, some,
}
use operion.Models.Workflow.{Workflow, WorkflowNode, is_trigger_node}
use operion.Store.Workflows.{stamp}
use operion.Providers.{named_source}
use operion.Providers.Manager.{Updates, update_if_trigger, update_trigger_nodes, with_nodes}

abbrev differs : WorkflowNode → Option String → Bool
differs n none = false
differs n (some source) = not (named_source n == source)

-- A trigger node that is mapped to another source than its own.
unfoldable pub moves : Dict String → WorkflowNode → Bool
moves mapped n = is_trigger_node n && differs n (lookup n.id mapped)

-- The node with the source to which it is mapped, if that is another one.
unfoldable pub moved : Dict String → WorkflowNode → WorkflowNode
moved mapped n = if moves mapped n then record n { source_id = lookup n.id mapped } else n

-- The loop over the nodes of a workflow gives the trigger nodes that are mapped to another source
-- that source and leaves the other nodes, says whether there was such a node, and counts them.
pub update_trigger_nodes-moved :
    (mapped : Dict String) (ns : List WorkflowNode)
    → update_trigger_nodes mapped ns ≡ record {
      nodes = map (moved mapped) ns;
      is_updated = any (moves mapped) ns;
      count = length (filter (moves mapped) ns);
    }
unfolding update_trigger_nodes moves moved
update_trigger_nodes-moved mapped [] = refl
update_trigger_nodes-moved mapped (n ∷ ns) =
    ap (update_if_trigger (is_trigger_node n) n (lookup n.id mapped))
      (update_trigger_nodes-moved mapped ns)
    ∙ one (is_trigger_node n) (lookup n.id mapped) refl
  where
    rest : Updates
    rest = record {
      nodes = map (moved mapped) ns;
      is_updated = any (moves mapped) ns;
      count = length (filter (moves mapped) ns);
    }

    one :
        (b : Bool) (o : Option String)
        → lookup n.id mapped ≡ o
        → update_if_trigger b n o rest ≡ record {
          nodes =
              (if b && differs n o then record n { source_id = lookup n.id mapped } else n)
              ∷ rest.nodes;
          is_updated = (b && differs n o) || rest.is_updated;
          count = length (elim (b && differs n o) [
            | true ↦ n ∷ filter (moves mapped) ns
            | false ↦ filter (moves mapped) ns
          ]);
        }
    one false o e = refl
    one true none e = refl
    one true (some source) e = elim (Bool-cases (named_source n == source)) [
      | inl q ↦ simp q refl
      | inr q ↦ simp (q, e) refl
    ]

-- A workflow as the update leaves it: saved with its nodes moved, if one of them moves.
unfoldable pub with_sources : Dict String → ℕ → Workflow → Workflow
with_sources mapped now x =
    if any (moves mapped) x.nodes then stamp now (with_nodes (map (moved mapped) x.nodes) x) else x
