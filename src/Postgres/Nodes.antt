-- ===== src/Postgres/Nodes.antt =====
-- The node repository over PostgreSQL (pkg/persistence/postgresql/node_repository.go).
use operion.Base.{
  String, Bool, true, false, ◌&&◌, not, any, map, ◌==◌, if◌then◌else◌, List, [], ◌∷◌, ◌++◌, filter,
}
use operion.Models.Workflow.{WorkflowNode, TriggerNodeMatch}
use operion.Models.Database.{WorkflowRow, NodeRow, Database}
use operion.Models.Event.{node_not_found}
use operion.Store.{M, ◌>>=◌, pure, throw, require}
use operion.Store.Nodes.{is_trigger_for}
use operion.Postgres.{Sorting, select, exec_unless, exec_counted, first}
use operion.Postgres.Workflows.{is_live}
use operion.Postgres.Saving.{node_row, has_node}

abbrev pub is_node : String → String → NodeRow → Bool
is_node workflow id r = r.workflow_id == workflow && r.node.id == id

-- `GetNodeByWorkflow`.
unfoldable pub get_node_by_workflow : String → String → M WorkflowNode
get_node_by_workflow workflow id = do
  rows ← select (λ d. filter (is_node workflow id) d.nodes)
  r ← require (node_not_found id) (first rows)
  pure r.node

-- What a foreign key to `workflows` asks for.
unfoldable pub has_workflow : String → Database → Bool
has_workflow id d = any (λ r. r.id == id) d.workflows

-- `INSERT INTO workflow_nodes … ON CONFLICT (id, workflow_id) DO UPDATE`.
unfoldable pub put_node : NodeRow → List NodeRow → List NodeRow
put_node r [] = r ∷ []
put_node r (s ∷ rows) =
    if is_node r.workflow_id r.node.id s
    then record r { created_at = s.created_at } ∷ rows
    else s ∷ put_node r rows

-- `SaveNode`.
unfoldable pub save_node : String → WorkflowNode → M (Unit {0})
save_node workflow n =
    exec_unless (λ now d. not (has_workflow workflow d))
      (λ now d. record d { nodes = put_node (node_row workflow now n) d.nodes })

-- `UpdateNode`.
unfoldable pub update_node : String → WorkflowNode → M (Unit {0})
update_node workflow n = do old ← get_node_by_workflow workflow n.id; save_node workflow n

abbrev deleted_or_error : String → Bool → M (Unit {0})
deleted_or_error id true = pure tt
deleted_or_error id false = throw (node_not_found id)

-- `DeleteNode`.
unfoldable pub delete_node : String → String → M (Unit {0})
delete_node workflow id = do
  deleted ←
      exec_counted (has_node workflow id)
        (λ now d. record d { nodes = filter (λ r. not (is_node workflow id r)) d.nodes })
  deleted_or_error id deleted

abbrev pub pairs_with : WorkflowRow → List NodeRow → List (WorkflowRow × NodeRow)
pairs_with w [] = []
pairs_with w (n ∷ ns) = (w, n) ∷ pairs_with w ns

-- `FROM workflows w JOIN workflow_nodes n ON w.id = n.workflow_id`.
unfoldable pub join : List WorkflowRow → List NodeRow → List (WorkflowRow × NodeRow)
join [] ns = []
join (w ∷ ws) ns = pairs_with w (filter (λ n. w.id == n.workflow_id) ns) ++ join ws ns

abbrev pub match_of : WorkflowRow × NodeRow → TriggerNodeMatch
match_of (w, n) = record { workflow_id = w.id; trigger_node = n.node }

module _ (sort : Sorting) where
  -- `GetNodesByWorkflow`.
  unfoldable pub get_nodes_by_workflow : String → M (List WorkflowNode)
  get_nodes_by_workflow workflow = do
    rows ←
        select (λ d.
          sort.ascending (λ r. r.created_at) (filter (λ r. r.workflow_id == workflow) d.nodes))
    pure (map (λ r. r.node) rows)

  -- `FindTriggerNodesBySourceEventAndProvider`.
  unfoldable pub find_trigger_nodes : String → String → String → String → M (List TriggerNodeMatch)
  find_trigger_nodes source event provider status = do
    rows ← select (λ d.
        sort.descending (λ p. p.0.created_at)
          (filter
            (λ p.
              is_live p.0 && p.0.status == status && is_trigger_for source event provider p.1.node)
            (join d.workflows d.nodes)))
    pure (map match_of rows)
