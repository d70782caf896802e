-- ===== src/Providers/Scheduler/Mapped.antt =====
-- Each trigger node that the scheduler maps has a schedule (pkg/providers/scheduler/provider.go,
-- `Configure`).
use operion.Base.{
  ℕ, suc, String, Bool, true, false, ◌==◌, eq_iff, ◌≡◌, refl, sym, ap, ◌∙◌, inl, inr, Bool-cases,
  if◌then◌else◌, List, [], ◌∷◌, All, Dict, lookup, insert, lookup-insert, values, Option, none,
  some, Filed,
}
use operion.Models.Value.{Value, as_string}
use operion.Models.Workflow.{Workflow, WorkflowNode}
use operion.Models.Source.{Schedule}
use operion.Store.{World, Result, ok, err, ◌>>=◌, attempt}
use operion.Store.Ensures.{
  Ensures, returns, >>=-Ensures, Ensures-weaken, attempt-Ensures, Ensures-both, Never,
}
use operion.Activator.{generate_id}
use operion.Providers.{named_source}
use operion.Providers.Mapped.{Gives, configure-All}
use operion.Providers.Scheduler.{
  Cron, unscheduled, new_schedule, calculate_next_due_at, calculated, save_schedule,
  schedule_by_source_id, first_with_source,
}
use operion.Providers.Scheduler.Polling.{scheduler_provider}
use operion.Providers.Scheduler.Rounds.{Saved, save_schedule-Saved}
use operion.Providers.Scheduler.Sound.{SoundSchedules, IsOwn, save_schedule-Keeps}
use operion.Providers.Scheduler.Configuring.{
  source_or_new, unless_failed, save_new, create_schedule, unless_exists,
  process_schedule_trigger_node, process_if_scheduled, process_node, configure_scheduler,
}

-- A schedule of the memory names the source.
pub HasSchedule : String → World → Type 0
HasSchedule source w =
    (s : Schedule) × (first_with_source source (values w.sources.schedules) ≡ some s)

first_with_source-lookup :
    (j : String) (m : Dict Schedule)
    → Filed (λ s. s.source_id) m
    → first_with_source j (values m) ≡ lookup j m
unfolding first_with_source lookup
first_with_source-lookup j [] h = refl
first_with_source-lookup j ((k, s) ∷ m) (p, q, h) =
    ap (λ i. if i == j then some s else first_with_source j (values m)) p
    ∙ ap (λ o. if k == j then some s else o) (first_with_source-lookup j m h)

Has : String → World → Type 0
Has source w = (s : Schedule) × (lookup source w.sources.schedules ≡ some s)

Has-insert :
    (j : String) (t : Schedule) (w v : World)
    → v.sources.schedules ≡ insert t.id t w.sources.schedules
    → Has j w
    → Has j v
unfolding Has
Has-insert j t w v e (s, h) = elim (Bool-cases (t.id == j)) [
  | inl q ↦ (t, ap (lookup j) e ∙ lookup-insert t.id j t w.sources.schedules ∙ rw q refl)
  | inr q ↦ (s, ap (lookup j) e ∙ lookup-insert t.id j t w.sources.schedules ∙ rw q h)
]

All-Has-insert :
    (sources : List String) (t : Schedule) (w v : World)
    → v.sources.schedules ≡ insert t.id t w.sources.schedules
    → All (λ s. Has s w) sources
    → All (λ s. Has s v) sources
All-Has-insert [] t w v e h = tt
All-Has-insert (s ∷ ss) t w v e (h, hs) = (Has-insert s t w v e h, All-Has-insert ss t w v e hs)

GivesSource : List String → String → World → Type 0
GivesSource = Gives SoundSchedules Has

module _ (uuid : ℕ → String) (k : Cron) (sources : List String) where
  save_new-Gives :
      (now : ℕ) (source : String) (t : Schedule) (r : Option (ℕ → ℕ)) (w : World)
      → t.id ≡ source
      → IsOwn t
      → SoundSchedules w
      → All (λ s. Has s w) sources
      → Ensures (GivesSource sources) Never (save_new uuid k source (calculated now now t r) w)
  unfolding GivesSource Gives Has Saved
  save_new-Gives now source t none w i e p h = returns (p, inl refl, h)
  save_new-Gives now source t (some next) w i e p h =
      >>=-Ensures (attempt (save_schedule u)) (unless_failed uuid k source) w
        (attempt-Ensures (save_schedule u) w
          (Ensures-both _ (save_schedule-Keeps u e w p) (save_schedule-Saved u w)))
        saved
    where
      u : Schedule
      u = record t { next_due_at = next now; updated_at = now }

      saved :
          (r : Result (Unit {0})) (v : World)
          → SoundSchedules v × Saved u w v
          → Ensures (GivesSource sources) Never (unless_failed uuid k source r v)
      saved (err x) v (q, (_, _, _, d)) = returns (q, inl refl, All-Has-insert sources u w v d h)
      saved (ok _) v (q, (_, _, _, d)) = returns (
        q,
        inr (
          u,
          ap (lookup source) d
              ∙ lookup-insert u.id source u w.sources.schedules
              ∙ rw ((eq_iff u.id source).1 i) refl,
        ),
        All-Has-insert sources u w v d h,
      )

  unless_exists-Gives :
      (source : String) (x : Value) (o : Option Schedule) (w : World)
      → first_with_source source (values w.sources.schedules) ≡ o
      → SoundSchedules w
      → All (λ s. Has s w) sources
      → Ensures (GivesSource sources) Never (unless_exists uuid k source x o w)
  unfolding GivesSource Gives Has new_schedule calculate_next_due_at unscheduled
  unless_exists-Gives source x (some s) w e p h =
      returns (p, inr (s, sym (first_with_source-lookup source _ p.0.1) ∙ e), h)
  unless_exists-Gives source x none w e p h = created (as_string (some x))
    where
      created :
          (o : Option String)
          → Ensures (GivesSource sources) Never (create_schedule uuid k source o w)
      created none = returns (p, inl refl, h)
      created (some expression) =
          save_new-Gives w.now source (unscheduled w.now source source expression)
            (k.parse expression) w refl refl p h

  after_source :
      (source : String) (x : Value) (w : World)
      → SoundSchedules w
      → All (λ s. Has s w) sources
      → Ensures
          (GivesSource sources)
          Never
          ((schedule_by_source_id source >>= unless_exists uuid k source x) w)
  unfolding schedule_by_source_id
  after_source source x w p h = unless_exists-Gives source x _ w refl p h

  scheduled-Gives :
      (n : WorkflowNode) (x : Value) (b : Bool) (w : World)
      → SoundSchedules w
      → All (λ s. Has s w) sources
      → Ensures (GivesSource sources) Never (
          (source_or_new uuid k b (named_source n) >>= λ source.
          schedule_by_source_id source >>= unless_exists uuid k source x)
            w)
  unfolding generate_id Has
  scheduled-Gives n x true w p h = after_source (uuid w.ids) x (record w { ids = suc w.ids }) p h
  scheduled-Gives n x false w p h = after_source (named_source n) x w p h

  process_node-Gives :
      (n : WorkflowNode) (w : World)
      → SoundSchedules w
      → All (λ s. Has s w) sources
      → Ensures (GivesSource sources) Never (process_node uuid k n w)
  unfolding process_node process_schedule_trigger_node GivesSource Gives
  process_node-Gives n w p h = by_expression (lookup "cron_expression" n.config)
    where
      by_expression :
          (o : Option Value)
          → Ensures (GivesSource sources) Never (process_if_scheduled uuid k n o w)
      by_expression none = returns (p, inl refl, h)
      by_expression (some x) = scheduled-Gives n x (named_source n == "") w p h

-- Each source to which configuring the scheduler maps a trigger node has a schedule afterwards,
-- whatever fails on the way.
pub configure_scheduler-HasSchedule :
    (uuid : ℕ → String) (k : Cron) (xs : List Workflow) (w : World)
    → SoundSchedules w
    → Ensures
        (λ mapped v. All (λ source. HasSchedule source v) (values mapped))
        Never
        (configure_scheduler uuid k xs w)
unfolding configure_scheduler HasSchedule Has Gives GivesSource
configure_scheduler-HasSchedule uuid k xs w p =
    Ensures-weaken (λ mapped v h. found (values mapped) v h.0 h.1) (λ _ _ n. n)
      (configure-All SoundSchedules Has scheduler_provider (process_node uuid k)
        (λ n sources v. process_node-Gives uuid k sources n v) xs [] w p tt)
  where
    found :
        (sources : List String) (v : World)
        → SoundSchedules v
        → All (λ s. Has s v) sources
        → All (λ s. HasSchedule s v) sources
    found [] v p h = tt
    found (s ∷ ss) v p (h, hs) = ((h.0, first_with_source-lookup s _ p.0.1 ∙ h.1), found ss v p hs)
