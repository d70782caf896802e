-- ===== src/Nodes/Trigger/Scheduler.antt =====
-- The scheduler trigger node (pkg/nodes/trigger/scheduler.go).
use operion.Base.{
  String, Bool, false, not, ◌&&◌, ◌==◌, if◌then◌else◌, [], ◌∷◌, Dict, lookup, Option, none, some,
}
use operion.Models.Value.{Value, string, object, object_of, other, as_string}
use operion.Models.Execution.{NodeResult, ExecutionContext}
use operion.Models.Event.{Error, field_required, invalid_config}
use operion.Store.{Result, ok, err}
use operion.Registry.{Node}
use operion.Nodes.Common.{output_port_success, success_on, text_or}
use operion.Nodes.Trigger.{external_port, trigger_error, entry, trigger_requirements, is_missing}

pub record SchedulerTriggerNode : Type 0 where
  pub id : String
  pub cron_expression : String
  pub timezone : String

abbrev made : String → Dict Value → Option String → Result SchedulerTriggerNode
made id config none = err (field_required "cron_expression")
made id config (some expression) = ok (record {
  id = id;
  cron_expression = expression;
  timezone = text_or "UTC" (as_string (lookup "timezone" config));
})

-- `NewSchedulerTriggerNode`.
unfoldable pub new_scheduler_trigger_node : String → Dict Value → Result SchedulerTriggerNode
new_scheduler_trigger_node id config = made id config (as_string (lookup "cron_expression" config))

-- The output on success; `time.Now()` is a value of another type.
unfoldable pub scheduler_output : SchedulerTriggerNode → Dict Value → Dict Value
scheduler_output n scheduler_data =
    ("scheduled_time", entry "scheduled_time" scheduler_data)
    ∷ ("cron_expression", string n.cron_expression)
    ∷ ("execution_time", other)
    ∷ ("timezone", string n.timezone)
    ∷ ("trigger_data", object (object_of scheduler_data))
    ∷ []

abbrev passed : SchedulerTriggerNode → Option NodeResult → Dict NodeResult
passed n none = trigger_error n.id "external input not found"
passed n (some input) = success_on n.id output_port_success (scheduler_output n input.fields)

-- `Execute`.
unfoldable pub execute_scheduler_trigger :
    SchedulerTriggerNode → ExecutionContext → Dict NodeResult → Result (Dict NodeResult)
execute_scheduler_trigger n c inputs = ok (passed n (lookup external_port inputs))

abbrev invalid_timezone : (String → Bool) → Option String → Bool
invalid_timezone known none = false
invalid_timezone known (some zone) = not (zone == "") && not (known zone)

-- `Validate`; `known` says whether `time.LoadLocation` finds a time zone.
unfoldable pub validate_scheduler_trigger : (String → Bool) → Dict Value → Option Error
validate_scheduler_trigger known config =
    if is_missing (as_string (lookup "cron_expression" config))
    then some (field_required "cron_expression")
    else if invalid_timezone known (as_string (lookup "timezone" config))
    then some (invalid_config "timezone")
    else none

-- The node as the worker uses it.
unfoldable pub scheduler_trigger_node : SchedulerTriggerNode → Node
scheduler_trigger_node n = record {
  input_requirements = some trigger_requirements;
  execute = execute_scheduler_trigger n;
}
