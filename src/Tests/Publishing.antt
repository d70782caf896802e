-- ===== src/Tests/Publishing.antt =====
-- Publishing the second version of a workflow (pkg/persistence/file/workflow.go).
use operion.Store.Path.{contains}
use operion.Base.{
  All, inr, ℕ, String, Bool, true, false, ◌≡◌, ◌↔◌, ◌⊎◌, refl, eq_iff, arith, List, [], ◌∷◌, lookup,
  insert_by, Option, none, some,
}
use mathlib.Core.Option
use operion.Publishing.Histories.{
  IsName, subject, Operation, publishes, deletes, drafts, perform_all, perform_all-IsKeyed,
}
use operion.Models.Workflow.{
  category_trigger, Workflow, status_draft, status_published, status_unpublished,
}
use operion.Models.Event.{io_failed}
use operion.Publishing.{publish}
use operion.Publishing.Invalid.{IsRefused, publish-IsRefused}
use operion.Models.Source.{no_sources}
use operion.Models.Database.{empty_database}
use operion.Store.{World, done, fail, io}
use operion.Store.Ensures.{Quiet}
use operion.Store.Workflows.{get_by_id, get_each, get_all, stamp, save, write_file, lists_before}
use operion.Store.Versions.{in_group, unpublished, unpublish_group, published, publish_workflow}
use operion.Store.Versions.Retire.{IsKeyed, retired}
use operion.Store.Versions.Publish.{
  published_at, publish_workflow-lookup, publish_workflow-on_error, publish_workflow-one_published,
}

abbrev workflow : String → String → ℕ → Option ℕ → Workflow
workflow id status updated_at published_at = record {
  id = id;
  name = "Daily report";
  description = "";
  status = status;
  workflow_group_id = "report";
  nodes = [];
  connections = [];
  variables = [];
  metadata = [];
  owner = "";
  created_at = 1;
  updated_at = updated_at;
  published_at = published_at;
  deleted_at = none;
}

abbrev folder : List Bool → World
folder faults = record {
  root = "data";
  workflows =
      ("v1", workflow "v1" status_published 2 (some 2))
      ∷ ("v2", workflow "v2" status_draft 3 none)
      ∷ [];
  contexts = [];
  input_states = [];
  bus = [];
  sources = no_sources;
  database = empty_database;
  now = 9;
  ids = 0;
  faults = faults;
}

abbrev folder_after : World
folder_after = record (folder []) {
  workflows =
      ("v1", workflow "v1" status_unpublished 9 (some 2))
      ∷ ("v2", workflow "v2" status_published 9 (some 9))
      ∷ [];
}

-- The sixth operation fails: the version that was published is so no longer, and the new one is not.
abbrev sixth_fails : List Bool
sixth_fails = false ∷ false ∷ false ∷ false ∷ false ∷ true ∷ []

abbrev folder_broken : World
folder_broken = record (folder []) {
  workflows =
      ("v1", workflow "v1" status_unpublished 9 (some 2))
      ∷ ("v2", workflow "v2" status_draft 3 none)
      ∷ [];
}

folder-IsKeyed : IsKeyed (folder []).workflows
unfolding lookup
folder-IsKeyed k x e = ground (arith, eq_iff "v1" k, eq_iff "v2" k)

new_published :
    publish_workflow "v2" (folder [])
    ≡ done (workflow "v2" status_published 9 (some 9)) folder_after
unfolding publish_workflow get_by_id get_each get_all save stamp write_file lists_before in_group
    unpublished unpublish_group published lookup insert_by io
new_published = refl

breaks_off : publish_workflow "v2" (folder sixth_fails) ≡ fail io_failed folder_broken
unfolding publish_workflow get_by_id get_each get_all save stamp write_file lists_before in_group
    unpublished unpublish_group published lookup insert_by io
breaks_off = refl

found :
    (faults : List Bool)
    → lookup "v2" (folder faults).workflows ≡ some (workflow "v2" status_draft 3 none)
unfolding lookup
found faults = refl

publish_workflow-lookup_example :
    lookup "v1" folder_after.workflows
    ≡ published_at "v2"
        (workflow "v2" status_draft 3 none)
        9
        "v1"
        (lookup "v1" (folder []).workflows)
publish_workflow-lookup_example =
    publish_workflow-lookup "v2" "v1" (workflow "v2" status_draft 3 none)
      (workflow "v2" status_published 9 (some 9)) (folder []) folder_after folder-IsKeyed (found [])
      new_published

publish_workflow-on_error_example :
    ((lookup "v1" folder_broken.workflows ≡ lookup "v1" (folder sixth_fails).workflows)
      ⊎ (lookup "v1" folder_broken.workflows
          ≡ Option.map (retired "report" 9) (lookup "v1" (folder sixth_fails).workflows)))
    × (¬ Quiet sixth_fails)
publish_workflow-on_error_example =
    publish_workflow-on_error "v2" "v1" (workflow "v2" status_draft 3 none) (folder sixth_fails)
      folder_broken io_failed folder-IsKeyed (found sixth_fails) breaks_off

abbrev old_version : String
old_version = "v1"

old_after :
    lookup old_version folder_after.workflows
    ≡ some (workflow old_version status_unpublished 9 (some 2))
unfolding lookup
old_after = refl

publish_workflow-one_published_example :
    (in_group "report" status_published (workflow old_version status_unpublished 9 (some 2)) ≡ true)
    ↔ (old_version ≡ "v2")
publish_workflow-one_published_example =
    publish_workflow-one_published "v2" old_version (workflow "v2" status_draft 3 none)
      (workflow "v2" status_published 9 (some 9))
      (workflow old_version status_unpublished 9 (some 2)) (folder []) folder_after folder-IsKeyed
      (found []) new_published old_after

abbrev history : List Operation
history = publishes "v2" ∷ deletes "v1" ∷ drafts "report" ∷ []

id-IsName : IsName "id"
unfolding contains
id-IsName = refl

history-IsName : All (λ o. IsName (subject o)) history
unfolding contains
history-IsName = (refl, (refl, (refl, tt)))

perform_all-IsKeyed_example :
    IsKeyed (perform_all (λ n. "id") history (folder sixth_fails)).workflows
perform_all-IsKeyed_example =
    perform_all-IsKeyed (λ n. "id") history (folder sixth_fails) (λ n. id-IsName) history-IsName
      folder-IsKeyed

-- A workflow whose one trigger node is not enabled.
abbrev switched_off : Workflow
switched_off = record (workflow "v3" status_draft 3 none) {
  nodes =
      record {
        id = "start";
        type = "trigger:scheduler";
        category = category_trigger;
        config = [];
        name = "Each morning";
        enabled = false;
        source_id = none;
        provider_id = none;
        event_type = none;
      }
      ∷ [];
}

abbrev folder_off : World
folder_off = record (folder []) { workflows = ("v3", switched_off) ∷ [] }

found_off : lookup "v3" folder_off.workflows ≡ some switched_off
unfolding lookup
found_off = refl

publish-IsRefused_example : IsRefused folder_off (publish "v3" folder_off)
publish-IsRefused_example =
    publish-IsRefused "v3" switched_off folder_off found_off (inr ((λ e. absurd (cc e.1)), tt))
