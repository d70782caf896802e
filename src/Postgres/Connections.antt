-- ===== src/Postgres/Connections.antt =====
-- The connection repository over PostgreSQL (pkg/persistence/postgresql/connection_repository.go).
use operion.Base.{
  String, Bool, true, false, ◌&&◌, ◌||◌, not, any, map, ◌==◌, if◌then◌else◌, List, [], ◌∷◌, filter,
}
use operion.Models.Port.{parse_port_id}
use operion.Models.Workflow.{Connection}
use operion.Models.Database.{ConnectionRow, Database}
use operion.Models.Event.{connection_not_found, invalid_port}
use operion.Store.{M, ◌>>=◌, pure, throw, require}
use operion.Postgres.{Sorting, select, exec_unless, exec_counted, first}
use operion.Postgres.Workflows.{scan_connection}
use operion.Postgres.Saving.{connection_row, joins_same, same_connection}
use operion.Postgres.Nodes.{has_workflow}

-- `INSERT INTO workflow_connections … ON CONFLICT (id, workflow_id) DO UPDATE`.
unfoldable pub put_connection : ConnectionRow → List ConnectionRow → List ConnectionRow
put_connection r [] = r ∷ []
put_connection r (s ∷ rows) =
    if same_connection s r
    then record r { created_at = s.created_at } ∷ rows
    else s ∷ put_connection r rows

-- Another connection joins the same ports, or there is no such workflow.
unfoldable pub is_refused : ConnectionRow → Database → Bool
is_refused r d =
    any (λ s. not (same_connection s r) && joins_same s r) d.connections
    || not (has_workflow r.workflow_id d)

-- `SaveConnection`.
unfoldable pub save_connection : String → Connection → M (Unit {0})
save_connection workflow c = do
  source ← require (invalid_port c.source_port) (parse_port_id c.source_port)
  target ← require (invalid_port c.target_port) (parse_port_id c.target_port)
  exec_unless (λ now d. is_refused (connection_row workflow now c source target) d)
      (λ now d. record d {
        connections = put_connection (connection_row workflow now c source target) d.connections;
      })

abbrev pub is_connection : String → String → ConnectionRow → Bool
is_connection workflow id r = r.workflow_id == workflow && r.id == id

-- `getConnectionByID`.
unfoldable pub get_connection_by_id : String → String → M Connection
get_connection_by_id workflow id = do
  rows ← select (λ d. filter (is_connection workflow id) d.connections)
  r ← require (connection_not_found id) (first rows)
  pure (scan_connection r)

-- `UpdateConnection`.
unfoldable pub update_connection : String → Connection → M (Unit {0})
update_connection workflow c = do
  old ← get_connection_by_id workflow c.id
  save_connection workflow c

abbrev deleted_or_error : String → Bool → M (Unit {0})
deleted_or_error id true = pure tt
deleted_or_error id false = throw (connection_not_found id)

-- `DeleteConnection`.
unfoldable pub delete_connection : String → String → M (Unit {0})
delete_connection workflow id = do
  deleted ←
      exec_counted (λ d. any (is_connection workflow id) d.connections)
        (λ now d. record d {
          connections = filter (λ r. not (is_connection workflow id r)) d.connections;
        })
  deleted_or_error id deleted

module _ (sort : Sorting) where
  abbrev pub connections_where : (ConnectionRow → Bool) → M (List Connection)
  connections_where test = do
    rows ← select (λ d. sort.ascending (λ r. r.created_at) (filter test d.connections))
    pure (map scan_connection rows)

  -- `GetConnectionsBySourceNode`, `GetConnectionsByTargetNode` and `GetConnectionsByWorkflow`.
  unfoldable pub get_connections_by_source_node : String → String → M (List Connection)
  get_connections_by_source_node workflow node =
      connections_where (λ r. r.workflow_id == workflow && r.source_node_id == node)

  unfoldable pub get_connections_by_target_node : String → String → M (List Connection)
  get_connections_by_target_node workflow node =
      connections_where (λ r. r.workflow_id == workflow && r.target_node_id == node)

  unfoldable pub get_connections_by_workflow : String → M (List Connection)
  get_connections_by_workflow workflow = connections_where (λ r. r.workflow_id == workflow)
