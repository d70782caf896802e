-- ===== src/Postgres/Workflows.antt =====
-- The workflow repository over PostgreSQL (pkg/persistence/postgresql/workflow.go).
pub mod Views
use Prim.Native.String
use operion.Base.{
  ℕ, String, Bool, true, false, ◌&&◌, ◌||◌, not, any, map, ◌==◌, if◌then◌else◌, List, [], ◌∷◌, ◌++◌,
  filter, Option, none, some,
}
use operion.Models.Port.{parse_port_id}
use operion.Models.Workflow.{
  Workflow, WorkflowNode, Connection, status_draft, status_published, status_unpublished,
}
use operion.Models.Database.{WorkflowRow, NodeRow, ConnectionRow, Database}
use operion.Models.Event.{io_failed, invalid_port, workflow_not_found, no_published_workflow}
use operion.Store.{World, M, ◌>>=◌, ◌>>◌, pure, io, gets, modify, require}
use operion.Store.Workflows.{stamp}
use operion.Store.Versions.{set_if_nil}
use operion.Activator.{generate_id}
use operion.Postgres.{Sorting, select, exec_unless, exec, begin, or_rollback, or_abandon, commit}

-- `scanWorkflowBase`.
unfoldable pub scan_workflow_base : WorkflowRow → Workflow
scan_workflow_base r = record {
  id = r.id;
  name = r.name;
  description = r.description;
  status = r.status;
  workflow_group_id = r.workflow_group_id;
  nodes = [];
  connections = [];
  variables = r.variables;
  metadata = r.metadata;
  owner = r.owner;
  created_at = r.created_at;
  updated_at = r.updated_at;
  published_at = r.published_at;
  deleted_at = r.deleted_at;
}

unfoldable pub scan_connection : ConnectionRow → Connection
scan_connection r = record {
  id = r.id;
  source_port = String.◌++◌ r.source_node_id (String.◌++◌ ":" r.source_port);
  target_port = String.◌++◌ r.target_node_id (String.◌++◌ ":" r.target_port);
}

abbrev pub is_null : Option ℕ → Bool
is_null none = true
is_null (some t) = false

-- `deleted_at IS NULL`.
abbrev pub is_live : WorkflowRow → Bool
is_live r = is_null r.deleted_at

abbrev pub rank : WorkflowRow → ℕ
rank r = if r.status == status_published then 0 else 1

module _ (sort : Sorting) where
  -- `loadWorkflowNodes`.
  unfoldable pub load_workflow_nodes : Workflow → M Workflow
  load_workflow_nodes x = do
    nodes ←
        select
          (λ d. sort.ascending (λ r. r.created_at) (filter (λ r. r.workflow_id == x.id) d.nodes))
    connections ← select (λ d.
        sort.ascending (λ r. r.created_at) (filter (λ r. r.workflow_id == x.id) d.connections))
    pure (record x {
      nodes = map (λ r. r.node) nodes;
      connections = map scan_connection connections;
    })

  -- `QueryRowContext`: the first row, if there is one.
  unfoldable pub load_first : List WorkflowRow → M (Option Workflow)
  load_first [] = pure none
  load_first (r ∷ rows) = do x ← load_workflow_nodes (scan_workflow_base r); pure (some x)

  -- The loop over all rows.
  unfoldable pub load_each : List WorkflowRow → M (List Workflow)
  load_each [] = pure []
  load_each (r ∷ rows) = do
    x ← load_workflow_nodes (scan_workflow_base r)
    xs ← load_each rows
    pure (x ∷ xs)

  -- `GetAll`.
  unfoldable pub get_all : M (List Workflow)
  get_all = do
    rows ← select (λ d. sort.descending (λ r. r.created_at) (filter is_live d.workflows))
    load_each rows

  -- `GetByID`.
  unfoldable pub get_by_id : String → M (Option Workflow)
  get_by_id id = do
    rows ← select (λ d. filter (λ r. r.id == id && is_live r) d.workflows)
    load_first rows

  -- `GetCurrentWorkflow`: the published version, or else the draft.
  unfoldable pub get_current_workflow : String → M (Option Workflow)
  get_current_workflow group = do
    rows ← select (λ d. sort.ascending rank (
        filter
          (λ r.
            r.workflow_group_id == group
            && (r.status == status_published || r.status == status_draft)
            && is_live r)
          d.workflows))
    load_first rows

  -- The version of a group with a status that was created last.
  unfoldable pub latest_with : String → String → M (Option Workflow)
  latest_with status group = do
    rows ← select (λ d.
        sort.descending (λ r. r.created_at)
          (filter (λ r. r.workflow_group_id == group && r.status == status && is_live r)
            d.workflows))
    load_first rows

  -- `GetDraftWorkflow`.
  unfoldable pub get_draft_workflow : String → M (Option Workflow)
  get_draft_workflow group = latest_with status_draft group

  -- `GetPublishedWorkflow`.
  unfoldable pub get_published_workflow : String → M (Option Workflow)
  get_published_workflow group = latest_with status_published group

  -- `GetWorkflowVersions`.
  unfoldable pub get_workflow_versions : String → M (List Workflow)
  get_workflow_versions group = do
    rows ← select (λ d.
        sort.descending (λ r. r.created_at)
          (filter (λ r. r.workflow_group_id == group && is_live r) d.workflows))
    load_each rows
