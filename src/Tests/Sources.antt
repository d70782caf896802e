-- ===== src/Tests/Sources.antt =====
-- The providers of source events and their manager (pkg/providers, cmd/operion-source-manager).
use mathlib.Core.Option
use operion.Base.{
  ℕ, ◌+◌, String, true, ◌≡◌, eq_iff, arith, refl, [], ◌∷◌, ◌++◌, All, lookup, values, none, some,
  map, filter, any, length,
}
use operion.Models.Value.{string, object, object_of, nil}
use operion.Models.Workflow.{Workflow, WorkflowNode, status_published, category_trigger}
use operion.Models.Execution.{ExecutionContext, NodeResult, execution_running, node_success}
use operion.Models.Source.{Schedule, WebhookSource}
use operion.Models.Database.{empty_database}
use operion.Store.{World, done, ok}
use operion.Store.Ensures.{Ensures, Never}
use operion.Store.Versions.Retire.{IsKeyed}
use operion.Registry.{Provider, ProviderFactory, Registry}
use operion.Nodes.Common.{output_port_success, success_on}
use operion.Nodes.Trigger.Webhook.{WebhookTriggerNode, execute_webhook_trigger}
use operion.Providers.{callback}
use operion.Providers.Scheduler.{Cron}
use operion.Providers.Scheduler.Polling.{process_due_schedules}
use operion.Providers.Scheduler.Configuring.{configure_scheduler}
use operion.Providers.Scheduler.Due.{Changes, process_due_schedules-changed}
use operion.Providers.Scheduler.Faultless.{Renews, process_due_schedules-renewed}
use operion.Providers.Scheduler.Sound.{SoundSchedules}
use operion.Providers.Scheduler.Histories.{
  configures, polls, deletes, reloads, perform_all, perform_all-Sound,
}
use operion.Providers.Scheduler.Mapped.{HasSchedule, configure_scheduler-HasSchedule}
use operion.Providers.Webhook.{first_with_external_id, has_json_schema}
use operion.Providers.Webhook.Server.{
  entry, WebhookRequest, Library, enrich_event_data, trim_prefix, handle_webhook, event_data,
  schema_error,
}
use operion.Providers.Webhook.Server.Answers.{
  Accepts, Handled, webhook_event, handle_webhook-Handled, handle_webhook-on_accepted,
}
use operion.Providers.Webhook.Configuring.{
  configure_webhook, get_webhook_port, validate_webhook_provider,
}
use operion.Providers.Webhook.Configuring.Port.{get_webhook_port-validate_webhook_provider}
use operion.Providers.Webhook.Passing.{execute_webhook_trigger-enrich_event_data}
use operion.Providers.Webhook.Mapped.{HasWebhook, FiledWebhooks, configure_webhook-HasWebhook}
use operion.Providers.Manager.{
  update_trigger_nodes, update_triggers_with_source_ids, start_provider,
}
use operion.Providers.Manager.Moving.{moved, moves, with_sources, update_trigger_nodes-moved}
use operion.Providers.Manager.Updating.{update_triggers_with_source_ids-with_sources}
use operion.Providers.Manager.Starting.{StartedOrAbsent, start_provider-Started}

abbrev schedule : String → ℕ → Schedule
schedule id next_due_at = record {
  id = id;
  source_id = id;
  cron_expression = "* * * * *";
  next_due_at = next_due_at;
  created_at = 1;
  updated_at = 1;
  active = true;
}

abbrev webhook : WebhookSource
webhook = record {
  id = "hook";
  external_id = "1b4e28ba";
  json_schema = [];
  configuration = [];
  created_at = 1;
  updated_at = 1;
  active = true;
}

abbrev trigger : WorkflowNode
trigger = record {
  id = "start";
  type = "trigger:scheduler";
  category = category_trigger;
  config = ("cron_expression", string "* * * * *") ∷ [];
  name = "Start";
  enabled = true;
  source_id = none;
  provider_id = some "scheduler";
  event_type = none;
}

abbrev workflow : Workflow
workflow = record {
  id = "v1";
  name = "Daily report";
  description = "";
  status = status_published;
  workflow_group_id = "report";
  nodes = trigger ∷ [];
  connections = [];
  variables = [];
  metadata = [];
  owner = "";
  created_at = 1;
  updated_at = 1;
  published_at = some 1;
  deleted_at = none;
}

-- Of the two schedules the first one is due.
abbrev process : World
process = record {
  root = "data";
  workflows = ("v1", workflow) ∷ [];
  contexts = [];
  input_states = [];
  bus = [];
  sources = record {
    schedules = ("a", schedule "a" 50) ∷ ("b", schedule "b" 110) ∷ [];
    schedules_file = ("a", schedule "a" 50) ∷ [];
    webhooks = ("hook", webhook) ∷ [];
    webhooks_file = [];
    kafka_sources = [];
    kafka_sources_file = [];
    consumers = [];
    events = [];
  };
  database = empty_database;
  now = 100;
  ids = 0;
  faults = [];
}

-- Every expression comes due each 60 units of time.
abbrev cron : Cron
cron = record { parse = λ _. some (λ now. now + 60) }

abbrev format : String → ℕ → String
format layout time = layout

abbrev uuid : ℕ → String
uuid n = "generated"

process-SoundSchedules : SoundSchedules process
unfolding lookup
process-SoundSchedules = (
  ((refl, refl, (refl, refl, tt)), (refl, refl, (refl, refl, tt))),
  ((refl, refl, tt), (refl, refl, tt)),
)

process_due_schedules-changed_example :
    Ensures
      (λ _ u. Changes format cron "a" process u)
      Never
      (process_due_schedules format cron process)
process_due_schedules-changed_example =
    process_due_schedules-changed format cron "a" process process-SoundSchedules.0.0

process_due_schedules-renewed_example :
    Ensures
      (λ _ u. Renews format cron "a" process u)
      Never
      (process_due_schedules format cron process)
process_due_schedules-renewed_example =
    process_due_schedules-renewed format cron "a" process process-SoundSchedules.0.0
      (refl, (refl, tt)) refl

perform_all-Sound_example : SoundSchedules (
    perform_all format uuid cron
      ((100, polls) ∷ (110, configures (workflow ∷ [])) ∷ (120, deletes "b") ∷ (130, reloads) ∷ [])
      process)
perform_all-Sound_example =
    perform_all-Sound format uuid cron
      ((100, polls) ∷ (110, configures (workflow ∷ [])) ∷ (120, deletes "b") ∷ (130, reloads) ∷ [])
      process process-SoundSchedules

configure_scheduler-HasSchedule_example :
    Ensures
      (λ mapped v. All (λ source. HasSchedule source v) (values mapped))
      Never
      (configure_scheduler uuid cron (workflow ∷ []) process)
configure_scheduler-HasSchedule_example =
    configure_scheduler-HasSchedule uuid cron (workflow ∷ []) process process-SoundSchedules

abbrev library : Library
library = record { parse_json = λ _. none; validate_schema = λ _ _. none; rfc3339 = λ _. "" }

abbrev request : WebhookRequest
request = record {
  path = "/webhook/1b4e28ba";
  method = "POST";
  url = "/webhook/1b4e28ba?day=1";
  remote_addr = "127.0.0.1:40000";
  user_agent = "curl";
  content_length = 0;
  request_headers = ("Accept", "*/*" ∷ []) ∷ [];
  query = ("day", "1" ∷ []) ∷ [];
  body = some "";
  body_size = 0;
}

handle_webhook-Handled_example :
    Ensures
      (λ status u. Handled library request process status u)
      Never
      (handle_webhook library (some callback) request process)
handle_webhook-Handled_example = handle_webhook-Handled library request process

request-Accepts : Accepts library request process webhook []
unfolding trim_prefix first_with_external_id event_data schema_error has_json_schema
request-Accepts = record {
  has_uuid = refl;
  is_post = refl;
  is_found = refl;
  is_active = refl;
  text = "";
  is_read = refl;
  fits = refl;
  is_data = refl;
  conforms = refl;
}

handle_webhook-on_accepted_example :
    Ensures
      (λ status u.
        (status ≡ 200)
        × (u.sources.events
            ≡ process.sources.events ++ (webhook_event library 100 request webhook [] ∷ [])))
      Never
      (handle_webhook library (some callback) request process)
handle_webhook-on_accepted_example =
    handle_webhook-on_accepted library request process webhook [] request-Accepts refl refl

get_webhook_port-validate_webhook_provider_example :
    validate_webhook_provider (some (get_webhook_port (λ _. none) (("port", string "x") ∷ []) ""))
    ≡ none
get_webhook_port-validate_webhook_provider_example =
    get_webhook_port-validate_webhook_provider (λ _. none) (("port", string "x") ∷ []) ""

abbrev webhook_node : WebhookTriggerNode
webhook_node = record { id = "start"; webhook_path = "/orders"; headers = []; method = "POST" }

abbrev context : ExecutionContext
context = record {
  id = "execution";
  workflow_id = "v1";
  status = execution_running;
  node_results = [];
  trigger_data = [];
  variables = [];
  metadata = [];
  error_message = "";
  created_at = 1;
  completed_at = none;
}

abbrev input : NodeResult
input = record {
  node_id = "start";
  fields = enrich_event_data library 100 [] request;
  status = node_success;
  timestamp = 1;
  error = "";
}

input_found : lookup "external" (("external", input) ∷ []) ≡ some input
unfolding lookup
input_found = refl

execute_webhook_trigger-enrich_event_data_example :
    execute_webhook_trigger webhook_node context (("external", input) ∷ [])
    ≡ ok (
        success_on "start" output_port_success (
          entry "headers" nil (
            entry "body"
              (object (object_of []))
              (entry "method" nil (entry "url" nil (entry "query" nil []))))))
execute_webhook_trigger-enrich_event_data_example =
    execute_webhook_trigger-enrich_event_data library 100 [] request webhook_node context
      (("external", input) ∷ []) input input_found refl

process-FiledWebhooks : FiledWebhooks process
unfolding lookup
process-FiledWebhooks = (refl, refl, tt)

configure_webhook-HasWebhook_example :
    Ensures
      (λ mapped v. All (λ source. HasWebhook source v) (values mapped))
      Never
      (configure_webhook uuid (workflow ∷ []) process)
configure_webhook-HasWebhook_example =
    configure_webhook-HasWebhook uuid (workflow ∷ []) process process-FiledWebhooks

update_trigger_nodes-moved_example :
    update_trigger_nodes (("start", "a") ∷ []) (trigger ∷ []) ≡ record {
      nodes = map (moved (("start", "a") ∷ [])) (trigger ∷ []);
      is_updated = any (moves (("start", "a") ∷ [])) (trigger ∷ []);
      count = length (filter (moves (("start", "a") ∷ [])) (trigger ∷ []));
    }
update_trigger_nodes-moved_example = update_trigger_nodes-moved (("start", "a") ∷ []) (trigger ∷ [])

process-IsKeyed : IsKeyed process.workflows
unfolding lookup
process-IsKeyed k x e = ground (arith, eq_iff "v1" k)

update_triggers_with_source_ids-with_sources_example :
    Ensures
      (λ _ u.
        lookup "v1" u.workflows
        ≡ Option.map (with_sources (("start", "a") ∷ []) 100) (lookup "v1" process.workflows))
      Never
      (update_triggers_with_source_ids (("start", "a") ∷ []) process)
update_triggers_with_source_ids-with_sources_example =
    update_triggers_with_source_ids-with_sources (("start", "a") ∷ []) "v1" process process-IsKeyed
      refl

-- A provider that maps the trigger node to a source.
abbrev idle : ProviderFactory
idle = record {
  id = "idle";
  create = λ _. ok (record {
    lifecycle = some (record {
      initialize = λ w. done tt w;
      configure = λ _ w. done (("start", "a") ∷ []) w;
      prepare = λ w. done tt w;
    });
    start = λ _ w. done tt w;
    stop = λ w. done tt w;
  });
}

abbrev registry : Registry
registry = record { node_factories = []; provider_factories = ("idle", idle) ∷ [] }

not_running : lookup {V = Provider} "idle" [] ≡ none
unfolding lookup
not_running = refl

start_provider-Started_example :
    Ensures
      (λ running _. StartedOrAbsent registry idle process running)
      Never
      (start_provider registry idle [] process)
start_provider-Started_example = start_provider-Started registry idle [] process not_running
