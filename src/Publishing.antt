-- ===== src/Publishing.antt =====
-- Publishing a workflow, and the workflow repository of the service layer
-- (pkg/workflow/publishing.go and repository.go).
pub mod Keyed
pub mod Invalid
pub mod Histories
use operion.Base.{
  ℕ, suc, String, Bool, ◌&&◌, not, ◌==◌, if◌then◌else◌, List, any, is_empty, Option, none, some,
}
use operion.Models.Workflow.{Workflow, WorkflowNode, category_trigger, status_draft}
use operion.Models.Event.{Error, workflow_not_found, invalid_workflow}
use operion.Store.{M, ◌>>=◌, ◌>>◌, gets, modify, require, check}
use operion.Store.Workflows.{get_by_id, get_all, save, delete_workflow}
use operion.Store.Versions.{publish_workflow}

unfoldable pub is_enabled_trigger : WorkflowNode → Bool
is_enabled_trigger n = n.category == category_trigger && n.enabled

-- `validateForPublishing`; `none` is the result `nil`.
unfoldable pub validate_for_publishing : Workflow → Option Error
validate_for_publishing x =
    if x.name == ""
    then some (invalid_workflow "name")
    else if is_empty x.nodes
    then some (invalid_workflow "nodes")
    else if not (any is_enabled_trigger x.nodes)
    then some (invalid_workflow "trigger")
    else none

-- `PublishingService.PublishWorkflow`: the workflow is read again after it has been published.
unfoldable pub publish : String → M (Option Workflow)
publish id = do
  found ← get_by_id id
  x ← require (workflow_not_found id) found
  check (validate_for_publishing x)
  saved ← publish_workflow id
  get_by_id id

-- `Repository.FetchAll` and `FetchByID`.
unfoldable pub fetch_all : M (List Workflow)
fetch_all = get_all

unfoldable pub fetch_by_id : String → M Workflow
fetch_by_id id = do found ← get_by_id id; require (workflow_not_found id) found

unfoldable pub created : String → ℕ → Workflow → Workflow
created id now x = record x {
  id = id;
  status = if x.status == "" then status_draft else x.status;
  created_at = now;
  updated_at = now;
}

-- `Repository.Create`, over the texts of the identifiers that `uuid.New` gives in turn.
unfoldable pub create : (ℕ → String) → Workflow → M Workflow
create uuid x = do
  now ← gets (λ w. w.now)
  n ← gets (λ w. w.ids)
  modify (λ w. record w { ids = suc w.ids })
  save (created (uuid n) now x)

unfoldable pub updated : String → ℕ → Workflow → Workflow → Workflow
updated id now existing x = record x { id = id; created_at = existing.created_at; updated_at = now }

-- `Repository.Update`.
unfoldable pub update : String → Workflow → M Workflow
update id x = do
  found ← get_by_id id
  existing ← require (workflow_not_found id) found
  now ← gets (λ w. w.now)
  save (updated id now existing x)

-- `Repository.Delete`.
unfoldable pub delete : String → M (Unit {0})
delete id = do
  found ← get_by_id id
  existing ← require (workflow_not_found id) found
  delete_workflow id
