-- ===== src/Store/Versions.antt =====
-- The versions of a workflow: drafts, publishing, and the workflow that is current
-- (pkg/persistence/file/workflow.go).
pub mod Retire
pub mod Publish
use Prim.Native.String
use operion.Base.{
  ℕ, zero, suc, ◌/◌, ◌%◌, String, Bool, true, false, ◌&&◌, ◌==◌, ltb, eqb, if◌then◌else◌, List, [],
  ◌∷◌, filter, Option, none, some,
}
use operion.Models.Workflow.{Workflow, status_draft, status_published, status_unpublished}
use operion.Models.Event.{workflow_not_found, no_published_workflow}
use operion.Store.{M, ◌>>=◌, ◌>>◌, pure, gets, require}
use operion.Store.Workflows.{get_by_id, get_all, save}

unfoldable pub in_group : String → String → Workflow → Bool
in_group group status x = x.workflow_group_id == group && x.status == status

-- One round of the loop that keeps the workflow of the group that was created last.
unfoldable pub keep_latest : String → String → Workflow → Option Workflow → Option Workflow
keep_latest group status x none = if in_group group status x then some x else none
keep_latest group status x (some y) =
    if in_group group status x && ltb y.created_at x.created_at then some x else some y

unfoldable pub latest : String → String → Option Workflow → List Workflow → Option Workflow
latest group status found [] = found
latest group status found (x ∷ xs) = latest group status (keep_latest group status x found) xs

-- `GetDraftWorkflow`.
unfoldable pub get_draft_workflow : String → M (Option Workflow)
get_draft_workflow group = do ws ← get_all; pure (latest group status_draft none ws)

-- `GetPublishedWorkflow`.
unfoldable pub get_published_workflow : String → M (Option Workflow)
get_published_workflow group = do ws ← get_all; pure (latest group status_published none ws)

-- `GetCurrentWorkflow`: the published version, or else the draft.
unfoldable pub current_or_draft : String → Option Workflow → M (Option Workflow)
current_or_draft group none = get_draft_workflow group
current_or_draft group (some x) = pure (some x)

unfoldable pub get_current_workflow : String → M (Option Workflow)
get_current_workflow group = do
  published ← get_published_workflow group
  current_or_draft group published

-- `GetWorkflowVersions`.
unfoldable pub get_workflow_versions : String → M (List Workflow)
get_workflow_versions group = do ws ← get_all; pure (filter (λ x. x.workflow_group_id == group) ws)

unfoldable pub unpublished : ℕ → Workflow → Workflow
unpublished now x = record x { status = status_unpublished; updated_at = now }

-- The loop of `PublishWorkflow` over all workflows.
unfoldable pub unpublish_group : String → List Workflow → M (Unit {0})
unpublish_group group [] = pure tt
unpublish_group group (x ∷ xs) =
    let rest = unpublish_group group xs in
    elim (in_group group status_published x) [
      | true ↦ do now ← gets (λ w. w.now); saved ← save (unpublished now x); rest
      | false ↦ rest
    ]

abbrev pub set_if_nil : ℕ → Option ℕ → Option ℕ
set_if_nil now none = some now
set_if_nil now (some t) = some t

unfoldable pub published : ℕ → Workflow → Workflow
published now x = record x {
  status = status_published;
  updated_at = now;
  published_at = set_if_nil now x.published_at;
}

-- `PublishWorkflow`; the result is the workflow as it was saved last.
unfoldable pub publish_workflow : String → M Workflow
publish_workflow id = do
  found ← get_by_id id
  x ← require (workflow_not_found id) found
  all ← get_all
  unpublish_group x.workflow_group_id all
  now ← gets (λ w. w.now)
  save (published now x)

unfoldable pub digit : ℕ → String
digit n =
    if eqb n 0
    then "0"
    else if eqb n 1
    then "1"
    else if eqb n 2
    then "2"
    else if eqb n 3
    then "3"
    else if eqb n 4
    then "4"
    else if eqb n 5
    then "5"
    else if eqb n 6
    then "6"
    else if eqb n 7
    then "7"
    else if eqb n 8
    then "8"
    else "9"

-- The decimal digits of a number below `10 ^ fuel`.
unfoldable pub format_from : ℕ → ℕ → String
format_from zero n = ""
format_from (suc fuel) n =
    let rest = format_from fuel (n / 10) in
    if ltb n 10 then digit n else String.◌++◌ rest (digit (n % 10))

-- `strconv.FormatInt(time.Now().Unix(), 10)`: the seconds of an int64, of 19 digits at most.
unfoldable pub format_unix : ℕ → String
format_unix now = format_from 19 (now / 1000000000)

unfoldable pub draft_id : String → ℕ → String
draft_id group now = String.◌++◌ group (String.◌++◌ "-draft-" (format_unix now))

unfoldable pub draft_copy : String → ℕ → Workflow → Workflow
draft_copy group now x = record x {
  id = draft_id group now;
  status = status_draft;
  created_at = now;
  updated_at = now;
  published_at = none;
}

unfoldable pub copy_published : String → M Workflow
copy_published group = do
  found ← get_published_workflow group
  x ← require (no_published_workflow group) found
  now ← gets (λ w. w.now)
  save (draft_copy group now x)

unfoldable pub draft_or_copy : String → Option Workflow → M Workflow
draft_or_copy group none = copy_published group
draft_or_copy group (some x) = pure x

-- `CreateDraftFromPublished`: a draft that exists is returned as it is.
unfoldable pub create_draft_from_published : String → M Workflow
create_draft_from_published group = do
  existing ← get_draft_workflow group
  draft_or_copy group existing
