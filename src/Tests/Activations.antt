-- ===== src/Tests/Activations.antt =====
-- A source event that activates the trigger node of a published workflow
-- (cmd/operion-activator/activator.go).
use operion.Base.{List, true, [], ◌∷◌, lookup, none, some, refl}
use operion.Models.Value.{string}
use operion.Models.Workflow.{Workflow, WorkflowNode, status_published, category_trigger}
use operion.Models.Event.{SourceEvent, activation}
use operion.Models.Source.{no_sources}
use operion.Models.Database.{empty_database}
use operion.Store.{World}
use operion.Activator.{trigger_context, trigger_activation}
use operion.Worker.Grounded.{Grounded}
use operion.Services.{Request, source, node, handle_all, handle_all-Grounded}
use operion.Registry.{new_registry}

abbrev daily : WorkflowNode
daily = record {
  id = "daily";
  type = "trigger:scheduler";
  category = category_trigger;
  config = [];
  name = "Daily";
  enabled = true;
  source_id = some "source";
  provider_id = some "scheduler";
  event_type = some "ScheduleDue";
}

abbrev report : Workflow
report = record {
  id = "report";
  name = "Daily report";
  description = "";
  status = status_published;
  workflow_group_id = "report";
  nodes = daily ∷ [];
  connections = [];
  variables = [];
  metadata = [];
  owner = "";
  created_at = 1;
  updated_at = 1;
  published_at = some 1;
  deleted_at = none;
}

-- One activation has gone out before.
abbrev running : World
running = record {
  root = "data";
  workflows = ("report", report) ∷ [];
  contexts = ("e0", trigger_context "e0" "report" report [] 1) ∷ [];
  input_states = [];
  bus = ("daily:e0", activation (trigger_activation "e0" "report" "daily" [])) ∷ [];
  sources = no_sources;
  database = empty_database;
  now = 2;
  ids = 0;
  faults = [];
}

abbrev due : SourceEvent
due = record {
  source_id = "source";
  provider_id = "scheduler";
  event_type = "ScheduleDue";
  event_data = ("cron", string "0 9 * * *") ∷ [];
}

running-Grounded : Grounded running
unfolding lookup trigger_activation
running-Grounded = (refl, tt)

-- The source event, and the activation that went out before.
abbrev requests : List Request
requests = source due ∷ node (trigger_activation "e0" "report" "daily" []) ∷ []

handle_all-Grounded_example :
    Grounded (handle_all (λ n. "e1") (λ n. "0a1b2c3d") new_registry requests running)
handle_all-Grounded_example =
    handle_all-Grounded (λ n. "e1") (λ n. "0a1b2c3d") new_registry requests running running-Grounded
