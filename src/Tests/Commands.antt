-- ===== src/Tests/Commands.antt =====
-- The validation of a folder with one workflow (cmd/*/validate.go).
use operion.Base.{String, Bool, true, [], ◌∷◌, Option, none, some, ◌≡◌, refl}
use operion.Models.Workflow.{
  Workflow, WorkflowNode, status_draft, category_trigger, category_action,
}
use operion.Models.Source.{no_sources}
use operion.Models.Database.{empty_database}
use operion.Models.Event.{not_registered}
use operion.Registry.{Registry, new_registry, register_provider}
use operion.Store.{World, err}
use operion.Commands.{count_source, no_counts, validate_sources, validate_triggers}
use operion.Commands.Counting.{has_providers, is_complete}
use operion.Commands.Verdicts.{Decides, validate-Decides}

abbrev trigger : Option String → WorkflowNode
trigger provider = record {
  id = "start";
  type = "trigger:scheduler";
  category = category_trigger;
  config = [];
  name = "Each morning";
  enabled = true;
  source_id = some "s1";
  provider_id = provider;
  event_type = none;
}

abbrev action : WorkflowNode
action = record (trigger none) {
  id = "end";
  type = "log";
  category = category_action;
  source_id = none;
}

abbrev workflow : Option String → Workflow
workflow provider = record {
  id = "v1";
  name = "Daily report";
  description = "";
  status = status_draft;
  workflow_group_id = "report";
  nodes = trigger provider ∷ action ∷ [];
  connections = [];
  variables = [];
  metadata = [];
  owner = "";
  created_at = 1;
  updated_at = 1;
  published_at = none;
  deleted_at = none;
}

abbrev folder : Option String → World
folder provider = record {
  root = "data";
  workflows = ("v1", workflow provider) ∷ [];
  contexts = [];
  input_states = [];
  bus = [];
  sources = no_sources;
  database = empty_database;
  now = 9;
  ids = 0;
  faults = [];
}

abbrev scheduler : Registry
scheduler =
    register_provider (record { id = "scheduler"; create = λ config. err (not_registered "") })
      new_registry

abbrev each_valid : WorkflowNode → Bool
each_valid n = true

validate-Decides_example :
    Decides
      (has_providers each_valid scheduler)
      (folder (some "scheduler"))
      (validate_sources each_valid scheduler)
    × Decides (is_complete each_valid) (folder (some "scheduler")) (validate_triggers each_valid)
validate-Decides_example = validate-Decides each_valid scheduler (folder (some "scheduler"))

-- A trigger node without a provider.
panics : count_source each_valid scheduler (trigger none) no_counts ≡ none
unfolding count_source
panics = refl
