-- ===== src/Providers/Scheduler.antt =====
-- The scheduler provider (pkg/providers/scheduler): its schedules and their file
-- (models/schedule.go and persistence/file.go).
pub mod Polling
pub mod Rounds
pub mod Due
pub mod Faultless
pub mod Sound
pub mod Histories
pub mod Mapped
pub mod Configuring
use operion.Base.{
  ℕ, String, Bool, true, false, not, ◌&&◌, ◌||◌, ◌==◌, ltb, if◌then◌else◌, List, [], ◌∷◌, filter,
  Dict, lookup, insert, delete, values, Option, none, some,
}
use operion.Models.Event.{Error, io_failed, invalid_config, field_required}
use operion.Models.Source.{Schedule, Sources}
use operion.Store.{World, Result, ok, err, M, ◌>>=◌, ◌>>◌, pure, io, gets, modify}

-- What the package calls of the cron library: the parser of the five fields gives the function
-- `Next` from a time to the next one after it, which is the zero time if none comes in five years.
pub record Cron : Type 0 where
  pub parse : String → Option (ℕ → ℕ)

abbrev pub calculated : ℕ → ℕ → Schedule → Option (ℕ → ℕ) → Result Schedule
calculated now reference s none = err (invalid_config "cron_expression")
calculated now reference s (some next) =
    ok (record s { next_due_at = next reference; updated_at = now })

-- `calculateNextDueAt`; one round sees one time.
unfoldable pub calculate_next_due_at : Cron → ℕ → ℕ → Schedule → Result Schedule
calculate_next_due_at k now reference s = calculated now reference s (k.parse s.cron_expression)

unfoldable pub unscheduled : ℕ → String → String → String → Schedule
unscheduled now id source_id expression = record {
  id = id;
  source_id = source_id;
  cron_expression = expression;
  next_due_at = 0;
  created_at = now;
  updated_at = now;
  active = true;
}

-- `NewSchedule`.
unfoldable pub new_schedule : Cron → ℕ → String → String → String → Result Schedule
new_schedule k now id source_id expression =
    calculate_next_due_at k now now (unscheduled now id source_id expression)

-- `UpdateNextDueAt`.
unfoldable pub update_next_due_at : Cron → ℕ → Schedule → Result Schedule
update_next_due_at k now s = calculate_next_due_at k now now s

-- `IsDue`.
unfoldable pub is_due : ℕ → Schedule → Bool
is_due now s = s.active && not (ltb now s.next_due_at)

abbrev parse_error : Option (ℕ → ℕ) → Option Error
parse_error none = some (invalid_config "cron_expression")
parse_error (some next) = none

-- `Schedule.Validate`.
unfoldable pub validate_schedule : Cron → Schedule → Option Error
validate_schedule k s =
    if s.id == "" || s.source_id == "" || s.cron_expression == ""
    then some (field_required "schedule")
    else parse_error (k.parse s.cron_expression)

abbrev pub with_schedules : Dict Schedule → World → World
with_schedules m w = record w { sources = record w.sources { schedules = m } }

abbrev pub write_schedules : World → World
write_schedules w = record w { sources = record w.sources { schedules_file = w.sources.schedules } }

-- `saveSchedulesToFile`.
unfoldable pub save_schedules_to_file : M (Unit {0})
save_schedules_to_file = do io io_failed; modify write_schedules

-- `SaveSchedule`: the memory changes also if the file cannot be written.
unfoldable pub save_schedule : Schedule → M (Unit {0})
save_schedule s = do
  modify (λ w. with_schedules (insert s.id s w.sources.schedules) w)
  save_schedules_to_file

-- `ScheduleByID`.
unfoldable pub schedule_by_id : String → M (Option Schedule)
schedule_by_id id = gets (λ w. lookup id w.sources.schedules)

unfoldable pub first_with_source : String → List Schedule → Option Schedule
first_with_source source_id [] = none
first_with_source source_id (s ∷ ss) =
    if s.source_id == source_id then some s else first_with_source source_id ss

-- `ScheduleBySourceID`; the loop over the map takes the entries in the dictionary's order.
unfoldable pub schedule_by_source_id : String → M (Option Schedule)
schedule_by_source_id source_id =
    gets (λ w. first_with_source source_id (values w.sources.schedules))

-- `Schedules`.
unfoldable pub all_schedules : M (List Schedule)
all_schedules = gets (λ w. values w.sources.schedules)

-- `DueSchedules`.
unfoldable pub due_schedules : ℕ → M (List Schedule)
due_schedules before = gets (λ w. filter (is_due before) (values w.sources.schedules))

-- `DeleteSchedule`.
unfoldable pub delete_schedule : String → M (Unit {0})
delete_schedule id = do
  modify (λ w. with_schedules (delete id w.sources.schedules) w)
  save_schedules_to_file

abbrev pub without : Option Schedule → Dict Schedule → Dict Schedule
without none m = m
without (some s) m = delete s.id m

-- `DeleteScheduleBySourceID`: the first such schedule; a schedule is kept under its identifier.
unfoldable pub delete_schedule_by_source_id : String → M (Unit {0})
delete_schedule_by_source_id source_id = do
  modify (λ w.
      with_schedules
        (without (first_with_source source_id (values w.sources.schedules)) w.sources.schedules) w)
  save_schedules_to_file

-- `loadSchedules`: each schedule of the file under its identifier.
unfoldable pub loaded : List Schedule → Dict Schedule → Dict Schedule
loaded [] m = m
loaded (s ∷ ss) m = loaded ss (insert s.id s m)

unfoldable pub load_schedules : M (Unit {0})
load_schedules = do
  io io_failed
  modify (λ w. with_schedules (loaded (values w.sources.schedules_file) []) w)
