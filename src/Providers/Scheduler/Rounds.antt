-- ===== src/Providers/Scheduler/Rounds.antt =====
-- A round of the scheduler's poller (pkg/providers/scheduler/provider.go, `processDueSchedules`).
use mathlib.Core.List.{append_assoc, append-nil}
use operion.Base.{
  ℕ, String, true, false, ◌==◌, ◌≡◌, refl, sym, ap, ◌∙◌, ◌⊎◌, inl, inr, Bool-cases, List, [], ◌∷◌,
  ◌++◌, Dict, insert, none,
}
use operion.Models.Event.{SourceEvent, new_source_event, validate_source_event, io_failed}
use operion.Models.Source.{Schedule}
use operion.Store.{World, Result, ok, err, pure, io, attempt}
use operion.Store.Ensures.{
  Quiet, Ensures, returns, Acts, Kept, acted, io-Reads, >>=-Acts, >>=-Ensures, Acts-Ensures,
  attempt_act-Ensures, attempt-Ensures, Ensures-weaken, Never,
}
use operion.Providers.{callback, with_event}
use operion.Providers.Publishing.{callback-Acts}
use operion.Providers.Scheduler.{
  Cron, update_next_due_at, save_schedule, save_schedules_to_file, with_schedules, write_schedules,
}
use operion.Providers.Scheduler.Polling.{
  schedule_event_data, scheduler_provider, schedule_due, publish_schedule_event, process_schedule,
  process_each, after_publish, store,
}

-- The schedules after this one has got its next time, if its expression can be read.
abbrev pub stored : Result Schedule → Dict Schedule → Dict Schedule
stored (err e) m = m
stored (ok s) m = insert s.id s m

save_schedules_to_file-Acts :
    (w : World) → Acts io_failed tt w (write_schedules w) (save_schedules_to_file w)
unfolding save_schedules_to_file
save_schedules_to_file-Acts w =
    >>=-Acts (io io_failed) _ (io-Reads io_failed w) (λ gs k. acted gs (λ h. h))

-- What saving a schedule does, also where the file cannot be written.
unfoldable pub Saved : Schedule → World → World → Type 0
Saved t w v =
    (v.now ≡ w.now)
    × Kept w v.faults
    × (v.sources.events ≡ w.sources.events)
    × (v.sources.schedules ≡ insert t.id t w.sources.schedules)

pub save_schedule-Saved :
    (t : Schedule) (w : World)
    → Ensures (λ _ v. Saved t w v) (λ _ v. Saved t w v) (save_schedule t w)
unfolding save_schedule Saved
save_schedule-Saved t w =
    Acts-Ensures
      (save_schedules_to_file-Acts (with_schedules (insert t.id t w.sources.schedules) w))
      (λ gs l. (refl, l, refl, refl)) (λ gs n. (refl, (λ h. absurd (n h)), refl, refl))

module _ (format : String → ℕ → String) (k : Cron) where
  -- The event that a schedule publishes at a time.
  unfoldable pub event_of : ℕ → Schedule → SourceEvent
  event_of now s =
      new_source_event s.source_id scheduler_provider schedule_due
        (schedule_event_data format k now s)

  -- What the loop's body does for a schedule: its event is published and its next time is set, or
  -- nothing has changed, and then a fault was to come or the schedule has no source.
  data Tick (s : Schedule) (w v : World) : Type 0 where
    missed :
        v.sources.events ≡ w.sources.events
        → v.sources.schedules ≡ w.sources.schedules
        → (¬ Quiet w.faults) ⊎ ((s.source_id == "") ≡ true)
        → Tick s w v
    fired :
        v.sources.events ≡ w.sources.events ++ (event_of w.now s ∷ [])
        → v.sources.schedules ≡ stored (update_next_due_at k w.now s) w.sources.schedules
        → Tick s w v

  After : Schedule → World → World → Type 0
  After s w v = (v.now ≡ w.now) × Kept w v.faults × Tick s w v

  event_of-valid :
      (now : ℕ) (s : Schedule)
      → (s.source_id == "") ≡ false
      → validate_source_event (event_of now s) ≡ none
  unfolding event_of validate_source_event new_source_event
  event_of-valid now s n = rw n refl

  stored-After :
      (s : Schedule) (w u : World) (r : Result Schedule)
      → u.now ≡ w.now
      → Kept w u.faults
      → u.sources.events ≡ w.sources.events ++ (event_of w.now s ∷ [])
      → u.sources.schedules ≡ w.sources.schedules
      → update_next_due_at k w.now s ≡ r
      → Ensures (λ _ v. After s w v) Never (store format k r u)
  unfolding After Saved
  stored-After s w u (err e) n l p q r =
      returns (n, l, fired p (q ∙ sym (ap (λ x. stored x w.sources.schedules) r)))
  stored-After s w u (ok t) n l p q r =
      >>=-Ensures (attempt (save_schedule t)) (λ _. pure tt) u
        (attempt-Ensures (save_schedule t) u (save_schedule-Saved t u))
        (λ _ v (m, g, e, d). returns (
          m ∙ n,
          (λ h. g (l h)),
          fired (e ∙ p) (d ∙ ap (insert t.id t) q ∙ sym (ap (λ x. stored x w.sources.schedules) r)),
        ))

  process_schedule-After :
      (s : Schedule) (w : World)
      → Ensures (λ _ v. After s w v) Never (process_schedule format k s w)
  unfolding process_schedule publish_schedule_event event_of After callback validate_source_event
      new_source_event
  process_schedule-After s w = elim (Bool-cases (s.source_id == "")) [
    | inl q ↦ rw q (returns (refl, (λ h. h), missed refl refl (inr q)))
    | inr q ↦
        attempt_act-Ensures
          (callback s.source_id scheduler_provider schedule_due
            (schedule_event_data format k w.now s))
          (after_publish format k s)
          (callback-Acts s.source_id scheduler_provider schedule_due
            (schedule_event_data format k w.now s) w (event_of-valid w.now s q))
          (λ gs l.
            stored-After s w (record (with_event (event_of w.now s) w) { faults = gs })
              (update_next_due_at k w.now s) refl l refl refl refl)
          (λ gs n. returns (refl, (λ h. absurd (n h)), missed refl refl (inl n)))
  ]

  -- The loop over some schedules, with the events that it publishes.
  pub data Round : List Schedule → World → World → List SourceEvent → Type 0 where
    finished : {w : World} → Round [] w w []
    passed_over :
        {s : Schedule} {ss : List Schedule} {w v u : World} {es : List SourceEvent}
        → v.now ≡ w.now
        → Kept w v.faults
        → v.sources.events ≡ w.sources.events
        → v.sources.schedules ≡ w.sources.schedules
        → (¬ Quiet w.faults) ⊎ ((s.source_id == "") ≡ true)
        → Round ss v u es
        → Round (s ∷ ss) w u es
    went_out :
        {s : Schedule} {ss : List Schedule} {w v u : World} {es : List SourceEvent}
        → v.now ≡ w.now
        → Kept w v.faults
        → v.sources.events ≡ w.sources.events ++ (event_of w.now s ∷ [])
        → v.sources.schedules ≡ stored (update_next_due_at k w.now s) w.sources.schedules
        → Round ss v u es
        → Round (s ∷ ss) w u (event_of w.now s ∷ es)

  abbrev pub Rounds : List Schedule → World → World → Type 0
  Rounds ss w u = (es : List SourceEvent) × Round ss w u es

  then_round :
      (s : Schedule) (ss : List Schedule) (w v u : World)
      → After s w v
      → Rounds ss v u
      → Rounds (s ∷ ss) w u
  unfolding After
  then_round s ss w v u (n, l, missed p q r) (es, d) = (es, passed_over n l p q r d)
  then_round s ss w v u (n, l, fired p q) (es, d) = (event_of w.now s ∷ es, went_out n l p q d)

  pub process_each-Rounds :
      (ss : List Schedule) (w : World)
      → Ensures (λ _ u. Rounds ss w u) Never (process_each format k ss w)
  unfolding process_each
  process_each-Rounds [] w = returns ([], finished)
  process_each-Rounds (s ∷ ss) w =
      >>=-Ensures (process_schedule format k s) (λ _. process_each format k ss) w
        (process_schedule-After s w)
        (λ _ v a.
          Ensures-weaken (λ _ u d. then_round s ss w v u a d) (λ _ u n. n)
            (process_each-Rounds ss v))

  -- The events that are new on the bus are those of the round.
  pub Round-events :
      (ss : List Schedule) (w u : World) (es : List SourceEvent)
      → Round ss w u es
      → u.sources.events ≡ w.sources.events ++ es
  Round-events ss w u es finished = sym (append-nil w.sources.events)
  Round-events (s ∷ ss) w u es (passed_over {v = v} n l p q r d) =
      Round-events ss v u es d ∙ ap (λ x. x ++ es) p
  Round-events (s ∷ ss) w u es (went_out {v = v} {es = fs} n l p q d) =
      Round-events ss v u fs d
      ∙ ap (λ x. x ++ fs) p
      ∙ append_assoc w.sources.events (event_of w.now s ∷ []) fs
