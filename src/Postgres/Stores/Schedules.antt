-- ===== src/Postgres/Stores/Schedules.antt =====
-- Schedules over PostgreSQL (pkg/providers/scheduler/persistence/postgres.go).
use operion.Base.{ℕ, ltb, String, ◌&&◌, not, ◌==◌, List, filter, Option}
use operion.Models.Source.{Schedule}
use operion.Store.{M, ◌>>=◌, ◌>>◌, pure, gets}
use operion.Postgres.{Sorting, select, exec, first}
use operion.Postgres.Stores.{upsert, time_or, delete_where}

-- The columns, with what they keep of the times.
abbrev pub schedule_row : (ℕ → ℕ) → Schedule → Schedule
schedule_row keeps s = record s {
  created_at = keeps s.created_at;
  updated_at = keeps s.updated_at;
  next_due_at = keeps s.next_due_at;
}

abbrev pub keep_created : Schedule → Schedule → Schedule
keep_created old new = record new { created_at = old.created_at }

-- `SaveSchedule`; the result is the schedule as it stands after the call.
unfoldable pub save_schedule : Schedule → M Schedule
save_schedule s = do
  now ← gets (λ w. w.now)
  let t = record s { created_at = time_or s.created_at now; updated_at = now }
  exec (λ _ d. record d {
    schedules = upsert (λ r. r.id) keep_created (schedule_row d.keeps t) d.schedules;
  })
  pure t

-- `ScheduleByID`.
unfoldable pub schedule_by_id : String → M (Option Schedule)
schedule_by_id id = do rows ← select (λ d. filter (λ s. s.id == id) d.schedules); pure (first rows)

-- `ScheduleBySourceID`: any schedule of the source.
unfoldable pub schedule_by_source_id : String → M (Option Schedule)
schedule_by_source_id source_id = do
  rows ← select (λ d. filter (λ s. s.source_id == source_id) d.schedules)
  pure (first rows)

-- `DeleteSchedule`.
unfoldable pub delete_schedule : String → M (Unit {0})
delete_schedule id =
    delete_where (λ d. record d { schedules = filter (λ s. not (s.id == id)) d.schedules })

-- `DeleteScheduleBySourceID`.
unfoldable pub delete_schedule_by_source_id : String → M (Unit {0})
delete_schedule_by_source_id source_id =
    delete_where
      (λ d. record d { schedules = filter (λ s. not (s.source_id == source_id)) d.schedules })

module _ (sort : Sorting) where
  -- `Schedules`.
  unfoldable pub all_schedules : M (List Schedule)
  all_schedules = select (λ d. sort.ascending (λ s. s.created_at) d.schedules)

  -- `DueSchedules`.
  unfoldable pub due_schedules : ℕ → M (List Schedule)
  due_schedules before = select (λ d.
      sort.ascending (λ s. s.next_due_at)
        (filter (λ s. s.active && not (ltb before s.next_due_at)) d.schedules))
