-- ===== src/Postgres/Saving.antt =====
-- Saving and deleting a workflow over PostgreSQL (pkg/persistence/postgresql/workflow.go).
pub mod Rows
pub mod Inserts
pub mod Success
pub mod RoundTrip
use mathlib.Core.Option
use operion.Base.{
  ℕ, String, Bool, ◌&&◌, ◌||◌, true, false, not, any, map, ◌==◌, if◌then◌else◌, List, [], ◌∷◌, ◌++◌,
  filter, Option, none, some,
}
use operion.Models.Port.{parse_port_id}
use operion.Models.Workflow.{Workflow, WorkflowNode, Connection}
use operion.Models.Database.{WorkflowRow, NodeRow, ConnectionRow, Database}
use operion.Models.Event.{io_failed, invalid_port}
use operion.Store.{World, M, ◌>>=◌, ◌>>◌, pure, io, gets, require}
use operion.Store.Workflows.{stamp}
use operion.Activator.{generate_id}
use operion.Postgres.{exec_unless, exec, begin, or_rollback, or_abandon, commit}
use operion.Postgres.Workflows.{is_live}

-- The columns of a workflow that is inserted, with what they keep of its times.
unfoldable pub row_of : (ℕ → ℕ) → Workflow → WorkflowRow
row_of keeps x = record {
  id = x.id;
  name = x.name;
  description = x.description;
  variables = x.variables;
  status = x.status;
  metadata = x.metadata;
  owner = x.owner;
  workflow_group_id = x.workflow_group_id;
  published_at = Option.map keeps x.published_at;
  created_at = keeps x.created_at;
  updated_at = keeps x.updated_at;
  deleted_at = Option.map keeps x.deleted_at;
}

-- `INSERT INTO workflows … ON CONFLICT (id) DO UPDATE`, which keeps `created_at`.
unfoldable pub put_row : WorkflowRow → List WorkflowRow → List WorkflowRow
put_row r [] = r ∷ []
put_row r (s ∷ rows) =
    if s.id == r.id then record r { created_at = s.created_at } ∷ rows else s ∷ put_row r rows

unfoldable pub upsert_workflow : Workflow → M (Unit {0})
upsert_workflow x = exec (λ now d. record d { workflows = put_row (row_of d.keeps x) d.workflows })

-- `DELETE FROM workflow_connections WHERE workflow_id = $1`.
unfoldable pub delete_connections_of : String → M (Unit {0})
delete_connections_of id =
    exec (λ now d. record d { connections = filter (λ r. not (r.workflow_id == id)) d.connections })

-- `DELETE FROM workflow_nodes WHERE workflow_id = $1`.
unfoldable pub delete_nodes_of : String → M (Unit {0})
delete_nodes_of id =
    exec (λ now d. record d { nodes = filter (λ r. not (r.workflow_id == id)) d.nodes })

unfoldable pub node_row : String → ℕ → WorkflowNode → NodeRow
node_row workflow now n = record {
  workflow_id = workflow;
  node = n;
  created_at = now;
  updated_at = now;
}

-- The primary key of `workflow_nodes`.
unfoldable pub has_node : String → String → Database → Bool
has_node workflow id d = any (λ r. r.workflow_id == workflow && r.node.id == id) d.nodes

unfoldable pub insert_node : String → WorkflowNode → M (Unit {0})
insert_node workflow n =
    exec_unless (λ now d. has_node workflow n.id d)
      (λ now d. record d { nodes = d.nodes ++ (node_row workflow now n ∷ []) })

-- `saveWorkflowNodes`.
unfoldable pub save_workflow_nodes : String → List WorkflowNode → M (Unit {0})
save_workflow_nodes workflow [] = pure tt
save_workflow_nodes workflow (n ∷ ns) = do insert_node workflow n; save_workflow_nodes workflow ns

unfoldable pub connection_row :
    String → ℕ → Connection → String × String → String × String → ConnectionRow
connection_row workflow now c source target = record {
  workflow_id = workflow;
  id = c.id;
  source_node_id = source.0;
  source_port = source.1;
  target_node_id = target.0;
  target_port = target.1;
  created_at = now;
  updated_at = now;
}

-- The unique index of `workflow_connections`.
unfoldable pub joins_same : ConnectionRow → ConnectionRow → Bool
joins_same r s =
    r.workflow_id == s.workflow_id
    && r.source_node_id == s.source_node_id
    && r.source_port == s.source_port
    && r.target_node_id == s.target_node_id
    && r.target_port == s.target_port

abbrev pub same_connection : ConnectionRow → ConnectionRow → Bool
same_connection r s = r.workflow_id == s.workflow_id && r.id == s.id

-- The primary key and the unique index.
unfoldable pub has_connection : ConnectionRow → Database → Bool
has_connection r d = any (λ s. same_connection s r || joins_same s r) d.connections

unfoldable pub insert_connection :
    String → Connection → String × String → String × String → M (Unit {0})
insert_connection workflow c source target =
    exec_unless (λ now d. has_connection (connection_row workflow now c source target) d)
      (λ now d. record d {
        connections = d.connections ++ (connection_row workflow now c source target ∷ []);
      })

-- `saveWorkflowConnections`.
unfoldable pub save_workflow_connections : String → List Connection → M (Unit {0})
save_workflow_connections workflow [] = pure tt
save_workflow_connections workflow (c ∷ cs) = do
  source ← require (invalid_port c.source_port) (parse_port_id c.source_port)
  target ← require (invalid_port c.target_port) (parse_port_id c.target_port)
  insert_connection workflow c source target
  save_workflow_connections workflow cs

-- A workflow without a group has its own.
unfoldable pub grouped : Workflow → Workflow
grouped x = record x {
  workflow_group_id = if x.workflow_group_id == "" then x.id else x.workflow_group_id;
}

-- The transaction of `Save`. The error that `err` in the deferred function sees is not that of the
-- two loops, so that theirs leave the transaction open.
unfoldable pub write : Workflow → M Workflow
write x = do
  before ← begin
  or_rollback before (do upsert_workflow x; delete_connections_of x.id; delete_nodes_of x.id)
  or_abandon before
      (do save_workflow_nodes x.id x.nodes; save_workflow_connections x.id x.connections)
  commit before
  pure x

module _ (uuid : ℕ → String) where
  unfoldable pub id_or_new : Bool → String → M String
  id_or_new true id = do io io_failed; generate_id uuid
  id_or_new false id = pure id

  -- `Save`; the result is the workflow as it stands after the call.
  unfoldable pub save : Workflow → M Workflow
  save x = do
    now ← gets (λ w. w.now)
    id ← id_or_new (x.id == "") x.id
    write (grouped (record (stamp now x) { id = id }))

abbrev pub deleted_row : String → ℕ → WorkflowRow → WorkflowRow
deleted_row id now r = if r.id == id && is_live r then record r { deleted_at = some now } else r

-- `Delete`: no row is removed, and a workflow that does not exist is no error. The number of
-- changed rows may fail to be read.
unfoldable pub delete_workflow : String → M (Unit {0})
delete_workflow id = do
  exec (λ now d. record d { workflows = map (deleted_row id now) d.workflows })
  io io_failed
