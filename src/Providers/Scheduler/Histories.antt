-- ===== src/Providers/Scheduler/Histories.antt =====
-- The scheduler provider under any sequence of its operations (pkg/providers/scheduler).
use operion.Base.{
  ℕ, String, Bool, true, false, ◌==◌, refl, List, [], ◌∷◌, filter, All, Dict, lookup, values,
  Option, none, some,
}
use operion.Models.Value.{Value, as_string}
use operion.Models.Workflow.{Workflow, WorkflowNode}
use operion.Models.Source.{Schedule}
use operion.Store.{World, Result, ok, err, pure, gets, attempt}
use operion.Store.Preserves.{
  Preserves-pure, Preserves-gets, Preserves-attempt, Leaves-world_of, world_of,
}
use operion.Providers.{callback, named_source}
use operion.Providers.Publishing.{callback-Preserves}
use operion.Providers.Configuring.{configure-Preserves, generate_id-Preserves}
use operion.Providers.Scheduler.{
  Cron, unscheduled, new_schedule, update_next_due_at, calculate_next_due_at, calculated, is_due,
  save_schedule, delete_schedule, delete_schedule_by_source_id, due_schedules, load_schedules,
  schedule_by_source_id,
}
use operion.Providers.Scheduler.Polling.{
  publish_schedule_event, schedule_event_data, store, after_publish, process_schedule, process_each,
  process_due_schedules, scheduler_provider, schedule_due,
}
use operion.Providers.Scheduler.Configuring.{
  source_or_new, unless_failed, save_new, create_schedule, unless_exists,
  process_schedule_trigger_node, process_if_scheduled, process_node, configure_scheduler,
}
use operion.Providers.Scheduler.Sound.{
  SoundSchedules, Keeps, Keeps-bind, IsOwn, Sound-values, save_schedule-Keeps,
  delete_schedule-Keeps, delete_schedule_by_source_id-Keeps, load_schedules-Keeps,
}

Keeps-gets : {A : Type 0} (f : World → A) → Keeps (gets f)
Keeps-gets = Preserves-gets SoundSchedules

Keeps-pure : {A : Type 0} (a : A) → Keeps (pure a)
Keeps-pure = Preserves-pure SoundSchedules

callback-Keeps :
    (source provider type : String) (m : Dict Value) → Keeps (callback source provider type m)
callback-Keeps = callback-Preserves SoundSchedules (λ w gs h. h) (λ w e h. h)

module _ (format : String → ℕ → String) (uuid : ℕ → String) (k : Cron) where
  store-Keeps :
      (now : ℕ) (s : Schedule) (r : Option (ℕ → ℕ))
      → IsOwn s
      → Keeps (store format k (calculated now now s r))
  store-Keeps now s none e = Keeps-pure tt
  store-Keeps now s (some next) e =
      Keeps-bind (attempt (save_schedule (record s { next_due_at = next now; updated_at = now }))) _
        (Preserves-attempt SoundSchedules _ (save_schedule-Keeps _ e)) (λ _. Keeps-pure tt)

  after_publish-Keeps :
      (s : Schedule) (r : Result (Unit {0})) → IsOwn s → Keeps (after_publish format k s r)
  unfolding update_next_due_at calculate_next_due_at
  after_publish-Keeps s (err e) o = Keeps-pure tt
  after_publish-Keeps s (ok _) o =
      Keeps-bind (gets (λ w. w.now)) _ (Keeps-gets (λ w. w.now))
        (λ now. store-Keeps now s (k.parse s.cron_expression) o)

  process_each-Keeps : (ss : List Schedule) → All IsOwn ss → Keeps (process_each format k ss)
  unfolding process_each process_schedule publish_schedule_event
  process_each-Keeps [] a = Keeps-pure tt
  process_each-Keeps (s ∷ ss) (e, a) =
      Keeps-bind (process_schedule format k s) _
        (Keeps-bind (attempt (publish_schedule_event format k s)) _
          (Preserves-attempt SoundSchedules (publish_schedule_event format k s) (
            Keeps-bind (gets (λ w. w.now)) _ (Keeps-gets (λ w. w.now)) (λ now.
              callback-Keeps s.source_id scheduler_provider schedule_due
                (schedule_event_data format k now s))))
          (λ r. after_publish-Keeps s r e))
        (λ _. process_each-Keeps ss a)

  All-filter : (p : Schedule → Bool) (ss : List Schedule) → All IsOwn ss → All IsOwn (filter p ss)
  All-filter p [] h = h
  All-filter p (s ∷ ss) (h, hs) = kept (p s) (All-filter p ss hs)
    where
      kept :
          (b : Bool)
          → All IsOwn (filter p ss)
          → All IsOwn (elim b [ true ↦ s ∷ filter p ss | false ↦ filter p ss ])
      kept true rest = (h, rest)
      kept false rest = rest

  process_due_schedules-Keeps : Keeps (process_due_schedules format k)
  unfolding process_due_schedules due_schedules
  process_due_schedules-Keeps w h =
      process_each-Keeps (filter (is_due w.now) (values w.sources.schedules))
        (All-filter (is_due w.now) _ (Sound-values _ h.0)) w h

  source_or_new-Keeps : (b : Bool) (source : String) → Keeps (source_or_new uuid k b source)
  source_or_new-Keeps true source = generate_id-Preserves SoundSchedules uuid (λ w n h. h)
  source_or_new-Keeps false source = Keeps-pure source

  unless_failed-Keeps :
      (source : String) (r : Result (Unit {0})) → Keeps (unless_failed uuid k source r)
  unless_failed-Keeps source (err e) = Keeps-pure ""
  unless_failed-Keeps source (ok _) = Keeps-pure source

  save_new-Keeps :
      (now : ℕ) (source : String) (s : Schedule) (r : Option (ℕ → ℕ))
      → IsOwn s
      → Keeps (save_new uuid k source (calculated now now s r))
  save_new-Keeps now source s none e = Keeps-pure ""
  save_new-Keeps now source s (some next) e =
      Keeps-bind (attempt (save_schedule (record s { next_due_at = next now; updated_at = now }))) _
        (Preserves-attempt SoundSchedules _ (save_schedule-Keeps _ e)) (unless_failed-Keeps source)

  create_schedule-Keeps :
      (source : String) (o : Option String) → Keeps (create_schedule uuid k source o)
  unfolding new_schedule calculate_next_due_at unscheduled
  create_schedule-Keeps source none = Keeps-pure ""
  create_schedule-Keeps source (some expression) =
      Keeps-bind (gets (λ w. w.now)) _ (Keeps-gets (λ w. w.now)) (λ now.
        save_new-Keeps now source (unscheduled now source source expression) (k.parse expression)
          refl)

  unless_exists-Keeps :
      (source : String) (v : Value) (o : Option Schedule) → Keeps (unless_exists uuid k source v o)
  unless_exists-Keeps source v (some s) = Keeps-pure source
  unless_exists-Keeps source v none = create_schedule-Keeps source (as_string (some v))

  process_if_scheduled-Keeps :
      (n : WorkflowNode) (o : Option Value) → Keeps (process_if_scheduled uuid k n o)
  unfolding process_schedule_trigger_node schedule_by_source_id
  process_if_scheduled-Keeps n none = Keeps-pure ""
  process_if_scheduled-Keeps n (some v) =
      Keeps-bind (source_or_new uuid k (named_source n == "") (named_source n)) _
        (source_or_new-Keeps (named_source n == "") (named_source n))
        (λ source.
          Keeps-bind (schedule_by_source_id source) _ (Keeps-gets _) (unless_exists-Keeps source v))

  configure_scheduler-Keeps : (xs : List Workflow) → Keeps (configure_scheduler uuid k xs)
  unfolding configure_scheduler process_node
  configure_scheduler-Keeps xs =
      configure-Preserves SoundSchedules scheduler_provider (process_node uuid k)
        (λ n. process_if_scheduled-Keeps n (lookup "cron_expression" n.config)) xs []

-- What the process asks of the provider and of its persistence.
pub data Operation : Type 0 where
  configures : List Workflow → Operation
  polls : Operation
  deletes : String → Operation
  deletes_source : String → Operation
  reloads : Operation

module _ (format : String → ℕ → String) (uuid : ℕ → String) (k : Cron) where
  -- The world after an operation at a time, whether the operation has failed or not.
  unfoldable pub perform : Operation → World → World
  perform (configures xs) w = world_of (configure_scheduler uuid k xs w)
  perform polls w = world_of (process_due_schedules format k w)
  perform (deletes id) w = world_of (delete_schedule id w)
  perform (deletes_source id) w = world_of (delete_schedule_by_source_id id w)
  perform reloads w = world_of (load_schedules w)

  unfoldable pub perform_all : List (ℕ × Operation) → World → World
  perform_all [] w = w
  perform_all ((now, o) ∷ os) w = perform_all os (perform o (record w { now = now }))

  perform-Sound : (o : Operation) (w : World) → SoundSchedules w → SoundSchedules (perform o w)
  unfolding perform
  perform-Sound (configures xs) w h =
      Leaves-world_of SoundSchedules _ (configure_scheduler-Keeps format uuid k xs w h)
  perform-Sound polls w h =
      Leaves-world_of SoundSchedules _ (process_due_schedules-Keeps format uuid k w h)
  perform-Sound (deletes id) w h = Leaves-world_of SoundSchedules _ (delete_schedule-Keeps id w h)
  perform-Sound (deletes_source id) w h =
      Leaves-world_of SoundSchedules _ (delete_schedule_by_source_id-Keeps id w h)
  perform-Sound reloads w h = Leaves-world_of SoundSchedules _ (load_schedules-Keeps w h)

  -- If the schedules in the memory and in the file stand under their identifiers and under those of
  -- their sources, each once, this is so after any sequence of operations at any times, whatever
  -- fails.
  pub perform_all-Sound :
      (os : List (ℕ × Operation)) (w : World) → SoundSchedules w → SoundSchedules (perform_all os w)
  unfolding perform_all
  perform_all-Sound [] w h = h
  perform_all-Sound ((now, o) ∷ os) w h =
      perform_all-Sound os (perform o (record w { now = now }))
        (perform-Sound o (record w { now = now }) h)
