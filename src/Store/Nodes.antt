-- ===== src/Store/Nodes.antt =====
-- The node and connection repositories over the workflow files (pkg/persistence/file/file.go).
use operion.Base.{
  String, Bool, false, ◌&&◌, not, ◌==◌, if◌then◌else◌, List, [], ◌∷◌, ◌++◌, filter, Option, none,
  some,
}
use operion.Models.Port.{parse_port_id}
use operion.Models.Workflow.{Workflow, WorkflowNode, Connection, TriggerNodeMatch, category_trigger}
use operion.Models.Event.{workflow_not_found, node_not_found, connection_not_found}
use operion.Store.{M, ◌>>=◌, pure, require}
use operion.Store.Workflows.{get_by_id, get_all, save}

-- Reading a workflow, where one that does not exist is an error.
unfoldable pub get_workflow : String → M Workflow
get_workflow id = do found ← get_by_id id; require (workflow_not_found id) found

-- The loops that look for an element by its identifier: the first one, the list with the first
-- one replaced, and the list without it.
module _ {A : Type 0} (id_of : A → String) where
  unfoldable pub find_by_id : String → List A → Option A
  find_by_id id [] = none
  find_by_id id (x ∷ xs) = if id_of x == id then some x else find_by_id id xs

  -- With no such element, the new one is appended.
  unfoldable pub replace_or_append : A → List A → List A
  replace_or_append y [] = y ∷ []
  replace_or_append y (x ∷ xs) = if id_of x == id_of y then y ∷ xs else x ∷ replace_or_append y xs

  abbrev put_back : A → Option (List A) → Option (List A)
  put_back x none = none
  put_back x (some xs) = some (x ∷ xs)

  unfoldable pub remove_by_id : String → List A → Option (List A)
  remove_by_id id [] = none
  remove_by_id id (x ∷ xs) = if id_of x == id then some xs else put_back x (remove_by_id id xs)

abbrev pub node_id : WorkflowNode → String
node_id n = n.id

abbrev pub connection_id : Connection → String
connection_id c = c.id

-- `GetNodesByWorkflow`.
unfoldable pub get_nodes_by_workflow : String → M (List WorkflowNode)
get_nodes_by_workflow workflow = do x ← get_workflow workflow; pure x.nodes

-- `GetNodeByWorkflow`.
unfoldable pub get_node_by_workflow : String → String → M WorkflowNode
get_node_by_workflow workflow node = do
  x ← get_workflow workflow
  require (node_not_found node) (find_by_id node_id node x.nodes)

-- `SaveNode`, which is `UpdateNode` too.
unfoldable pub save_node : String → WorkflowNode → M Workflow
save_node workflow node = do
  x ← get_workflow workflow
  save (record x { nodes = replace_or_append node_id node x.nodes })

-- `DeleteNode`.
unfoldable pub delete_node : String → String → M Workflow
delete_node workflow node = do
  x ← get_workflow workflow
  rest ← require (node_not_found node) (remove_by_id node_id node x.nodes)
  save (record x { nodes = rest })

-- `p != nil && *p == s`.
unfoldable pub points_to : Option String → String → Bool
points_to none s = false
points_to (some t) s = t == s

unfoldable pub is_trigger_for : String → String → String → WorkflowNode → Bool
is_trigger_for source event provider n =
    n.category == category_trigger
    && points_to n.source_id source
    && points_to n.event_type event
    && points_to n.provider_id provider
    && n.enabled

unfoldable pub matches_in : String → List WorkflowNode → List TriggerNodeMatch
matches_in workflow [] = []
matches_in workflow (n ∷ ns) =
    record { workflow_id = workflow; trigger_node = n } ∷ matches_in workflow ns

-- The loops of `FindTriggerNodesBySourceEventAndProvider`.
unfoldable pub trigger_matches :
    String → String → String → String → List Workflow → List TriggerNodeMatch
trigger_matches source event provider status [] = []
trigger_matches source event provider status (x ∷ xs) =
    let rest = trigger_matches source event provider status xs in
    if not (status == "") && not (x.status == status)
    then rest
    else matches_in x.id (filter (is_trigger_for source event provider) x.nodes) ++ rest

-- `FindTriggerNodesBySourceEventAndProvider`.
unfoldable pub find_trigger_nodes : String → String → String → String → M (List TriggerNodeMatch)
find_trigger_nodes source event provider status = do
  xs ← get_all
  pure (trigger_matches source event provider status xs)

abbrev port_is_of : String → Option (String × String) → Bool
port_is_of node none = false
port_is_of node (some (n, _)) = n == node

unfoldable pub comes_from : String → Connection → Bool
comes_from node c = port_is_of node (parse_port_id c.source_port)

unfoldable pub goes_to : String → Connection → Bool
goes_to node c = port_is_of node (parse_port_id c.target_port)

-- `GetConnectionsBySourceNode`, `GetConnectionsByTargetNode` and `GetConnectionsByWorkflow`.
unfoldable pub get_connections_by_source_node : String → String → M (List Connection)
get_connections_by_source_node workflow node = do
  x ← get_workflow workflow
  pure (filter (comes_from node) x.connections)

unfoldable pub get_connections_by_target_node : String → String → M (List Connection)
get_connections_by_target_node workflow node = do
  x ← get_workflow workflow
  pure (filter (goes_to node) x.connections)

unfoldable pub get_connections_by_workflow : String → M (List Connection)
get_connections_by_workflow workflow = do x ← get_workflow workflow; pure x.connections

-- `SaveConnection`, which is `UpdateConnection` too.
unfoldable pub save_connection : String → Connection → M Workflow
save_connection workflow connection = do
  x ← get_workflow workflow
  save (record x { connections = replace_or_append connection_id connection x.connections })

-- `DeleteConnection`.
unfoldable pub delete_connection : String → String → M Workflow
delete_connection workflow connection = do
  x ← get_workflow workflow
  rest ←
      require (connection_not_found connection)
        (remove_by_id connection_id connection x.connections)
  save (record x { connections = rest })
