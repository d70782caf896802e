-- ===== src/Providers/Scheduler/Configuring.antt =====
-- Schedules for the trigger nodes of the workflows (pkg/providers/scheduler/provider.go).
use operion.Base.{ℕ, String, Bool, true, false, ◌==◌, List, [], Dict, lookup, Option, none, some}
use operion.Models.Value.{Value, as_string}
use operion.Models.Workflow.{Workflow, WorkflowNode}
use operion.Models.Source.{Schedule}
use operion.Store.{Result, ok, err, M, ◌>>=◌, pure, gets, attempt}
use operion.Activator.{generate_id}
use operion.Providers.{configure, named_source}
use operion.Providers.Scheduler.{Cron, new_schedule, save_schedule, schedule_by_source_id}
use operion.Providers.Scheduler.Polling.{scheduler_provider}

-- `uuid` gives the texts of the identifiers that the program generates, in turn.
module _ (uuid : ℕ → String) (k : Cron) where
  abbrev pub source_or_new : Bool → String → M String
  source_or_new true source = generate_id uuid
  source_or_new false source = pure source

  abbrev pub unless_failed : String → Result (Unit {0}) → M String
  unless_failed source (err e) = pure ""
  unless_failed source (ok _) = pure source

  abbrev pub save_new : String → Result Schedule → M String
  save_new source (err e) = pure ""
  save_new source (ok s) = attempt (save_schedule s) >>= unless_failed source

  abbrev pub create_schedule : String → Option String → M String
  create_schedule source none = pure ""
  create_schedule source (some expression) =
      gets (λ w. w.now) >>= λ now. save_new source (new_schedule k now source source expression)

  abbrev pub unless_exists : String → Value → Option Schedule → M String
  unless_exists source expression (some existing) = pure source
  unless_exists source expression none = create_schedule source (as_string (some expression))

  -- `processScheduleTriggerNode`: the node's source, or the empty text.
  unfoldable pub process_schedule_trigger_node : WorkflowNode → Value → M String
  process_schedule_trigger_node n expression = do
    source ← source_or_new (named_source n == "") (named_source n)
    existing ← schedule_by_source_id source
    unless_exists source expression existing

  abbrev pub process_if_scheduled : WorkflowNode → Option Value → M String
  process_if_scheduled n none = pure ""
  process_if_scheduled n (some expression) = process_schedule_trigger_node n expression

  -- What `Configure` does with a trigger node of the scheduler.
  unfoldable pub process_node : WorkflowNode → M String
  process_node n = process_if_scheduled n (lookup "cron_expression" n.config)

  -- `Configure`.
  unfoldable pub configure_scheduler : List Workflow → M (Dict String)
  configure_scheduler workflows = configure scheduler_provider process_node workflows []
