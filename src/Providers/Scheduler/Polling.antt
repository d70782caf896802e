-- ===== src/Providers/Scheduler/Polling.antt =====
-- The rounds of the scheduler's poller (pkg/providers/scheduler/provider.go).
use operion.Base.{ℕ, String, List, [], ◌∷◌, Dict}
use operion.Models.Value.{Value, string}
use operion.Models.Source.{Schedule}
use operion.Store.{Result, ok, err, M, ◌>>=◌, ◌>>◌, pure, gets, attempt}
use operion.Providers.{callback}
use operion.Providers.Scheduler.{Cron, update_next_due_at, save_schedule, due_schedules}

abbrev pub scheduler_provider : String
scheduler_provider = "scheduler"

abbrev pub schedule_due : String
schedule_due = "schedule_due"

-- `format` writes a time as the layout says.
module _ (format : String → ℕ → String) (k : Cron) where
  unfoldable pub schedule_event_data : ℕ → Schedule → Dict Value
  schedule_event_data now s =
      ("cron_expression", string s.cron_expression)
      ∷ ("due_at", string (format "2006-01-02 15:04" s.next_due_at))
      ∷ ("published_at", string (format "2006-01-02 15:04:05.000" now))
      ∷ []

  -- `publishScheduleEvent`.
  unfoldable pub publish_schedule_event : Schedule → M (Unit {0})
  publish_schedule_event s = do
    now ← gets (λ w. w.now)
    callback s.source_id scheduler_provider schedule_due (schedule_event_data now s)

  abbrev pub store : Result Schedule → M (Unit {0})
  store (err e) = pure tt
  store (ok s) = attempt (save_schedule s) >>= λ _. pure tt

  abbrev pub after_publish : Schedule → Result (Unit {0}) → M (Unit {0})
  after_publish s (err e) = pure tt
  after_publish s (ok _) = do now ← gets (λ w. w.now); store (update_next_due_at k now s)

  -- The body of the loop over the due schedules: an error is logged, and the next one has its turn.
  unfoldable pub process_schedule : Schedule → M (Unit {0})
  process_schedule s = do published ← attempt (publish_schedule_event s); after_publish s published

  unfoldable pub process_each : List Schedule → M (Unit {0})
  process_each [] = pure tt
  process_each (s ∷ ss) = do process_schedule s; process_each ss

  -- `processDueSchedules`.
  unfoldable pub process_due_schedules : M (Unit {0})
  process_due_schedules = do now ← gets (λ w. w.now); due ← due_schedules now; process_each due
