-- ===== src/Postgres/Versions.antt =====
-- Publishing and drafts over PostgreSQL (pkg/persistence/postgresql/workflow.go).
pub mod Publishing
use operion.Base.{ℕ, String, ◌&&◌, map, ◌==◌, if◌then◌else◌, Option, none, some}
use operion.Models.Workflow.{Workflow, status_draft, status_published, status_unpublished}
use operion.Models.Database.{WorkflowRow, Database}
use operion.Models.Event.{io_failed, workflow_not_found, no_published_workflow}
use operion.Store.{World, M, ◌>>=◌, ◌>>◌, pure, io, gets, require}
use operion.Store.Versions.{set_if_nil}
use operion.Activator.{generate_id}
use operion.Postgres.{Sorting, exec, begin, or_rollback}
use operion.Postgres.Workflows.{get_by_id, get_draft_workflow, get_published_workflow}
use operion.Postgres.Saving.{save}

-- The rows after the two statements of `PublishWorkflow`.
unfoldable pub unpublished_row : String → WorkflowRow → WorkflowRow
unpublished_row group r =
    if r.workflow_group_id == group && r.status == status_published
    then record r { status = status_unpublished }
    else r

unfoldable pub published_row : String → ℕ → WorkflowRow → WorkflowRow
published_row id now r =
    if r.id == id
    then record r {
      status = status_published;
      updated_at = now;
      published_at = set_if_nil now r.published_at;
    }
    else r

abbrev pub change_rows : (ℕ → WorkflowRow → WorkflowRow) → M (Unit {0})
change_rows f = exec (λ now d. record d { workflows = map (f now) d.workflows })

unfoldable pub draft_copy : String → ℕ → Workflow → Workflow
draft_copy id now x = record x {
  id = id;
  status = status_draft;
  created_at = now;
  updated_at = now;
  published_at = none;
}

module _ (sort : Sorting) where
  -- `PublishWorkflow`: the workflow is read outside of the transaction, whose own statements come
  -- after.
  unfoldable pub publish_workflow : String → M (Unit {0})
  publish_workflow id = do
    before ← begin
    or_rollback before (do
      found ← get_by_id sort id
      x ← require (workflow_not_found id) found
      change_rows (λ now. unpublished_row x.workflow_group_id)
      change_rows (λ now. published_row id now)
      io io_failed)

  module _ (uuid : ℕ → String) where
    unfoldable pub copy_published : String → M Workflow
    copy_published group = do
      found ← get_published_workflow sort group
      x ← require (no_published_workflow group) found
      io io_failed
      id ← generate_id uuid
      now ← gets (λ w. w.now)
      save uuid (draft_copy id now x)

    unfoldable pub draft_or_copy : String → Option Workflow → M Workflow
    draft_or_copy group none = copy_published group
    draft_or_copy group (some x) = pure x

    -- `CreateDraftFromPublished`: a draft that exists is returned as it is.
    unfoldable pub create_draft_from_published : String → M Workflow
    create_draft_from_published group = do
      existing ← get_draft_workflow sort group
      draft_or_copy group existing
