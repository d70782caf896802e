-- ===== src/Postgres/Workflows/Views.antt =====
-- Reading workflows changes no row: what the queries find, as functions of the tables
-- (pkg/persistence/postgresql/workflow.go).
use operion.Base.{String, ◌&&◌, ◌==◌, List, [], ◌∷◌, map, filter, Option, none, some}
use operion.Models.Workflow.{Workflow}
use operion.Models.Database.{WorkflowRow, NodeRow, ConnectionRow, Database}
use operion.Models.Event.{io_failed}
use operion.Store.{World}
use operion.Store.Ensures.{Reads, acted, >>=-Reads}
use operion.Postgres.{Sorting, select}
use operion.Postgres.Effects.{select-Reads}
use operion.Postgres.Workflows.{
  scan_workflow_base, scan_connection, is_live, load_workflow_nodes, load_first, get_by_id,
}

module _ (sort : Sorting) where
  unfoldable pub nodes_of : String → Database → List NodeRow
  nodes_of id d = sort.ascending (λ r. r.created_at) (filter (λ r. r.workflow_id == id) d.nodes)

  unfoldable pub connections_of : String → Database → List ConnectionRow
  connections_of id d =
      sort.ascending (λ r. r.created_at) (filter (λ r. r.workflow_id == id) d.connections)

  -- A workflow with the nodes and the connections of the tables.
  unfoldable pub assembled : Database → Workflow → Workflow
  assembled d x = record x {
    nodes = map (λ r. r.node) (nodes_of x.id d);
    connections = map scan_connection (connections_of x.id d);
  }

  unfoldable pub first_of : Database → List WorkflowRow → Option Workflow
  first_of d [] = none
  first_of d (r ∷ rows) = some (assembled d (scan_workflow_base r))

  load_workflow_nodes-Reads :
      (x : Workflow) (w : World)
      → Reads io_failed (assembled w.database x) w (load_workflow_nodes sort x w)
  unfolding load_workflow_nodes assembled nodes_of connections_of
  load_workflow_nodes-Reads x w =
      >>=-Reads (select _) _ (select-Reads _ w)
        (λ gs _. >>=-Reads (select _) _ (select-Reads _ _) (λ hs _. acted hs (λ h. h)))

  pub load_first-Reads :
      (rows : List WorkflowRow) (w : World)
      → Reads io_failed (first_of w.database rows) w (load_first sort rows w)
  unfolding load_first first_of
  load_first-Reads [] w = acted w.faults (λ h. h)
  load_first-Reads (r ∷ rows) w =
      >>=-Reads (load_workflow_nodes sort _) _ (load_workflow_nodes-Reads _ w)
        (λ gs _. acted gs (λ h. h))

  -- The workflow of an identifier, as the tables hold it.
  unfoldable pub found : String → Database → Option Workflow
  found id d = first_of d (filter (λ r. r.id == id && is_live r) d.workflows)

  pub get_by_id-Reads :
      (id : String) (w : World) → Reads io_failed (found id w.database) w (get_by_id sort id w)
  unfolding get_by_id found
  get_by_id-Reads id w = >>=-Reads (select _) _ (select-Reads _ w) (λ gs _. load_first-Reads _ _)
