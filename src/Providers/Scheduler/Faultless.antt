-- ===== src/Providers/Scheduler/Faultless.antt =====
-- A round of the scheduler's poller in which nothing fails (pkg/providers/scheduler/provider.go,
-- `processDueSchedules`).
use operion.Base.{
  ℕ, String, Bool, true, false, ◌==◌, eq_iff, ◌≡◌, refl, ap, ◌∙◌, inl, inr, Bool-cases,
  if◌then◌else◌, List, [], ◌∷◌, ◌++◌, map, filter, All, Dict, lookup, values, Option, none, some,
  Filed,
}
use operion.Models.Event.{SourceEvent}
use operion.Models.Source.{Schedule}
use operion.Store.{World, Result, ok, err}
use operion.Store.Ensures.{Quiet, Ensures, Ensures-weaken, Never}
use operion.Providers.Scheduler.{Cron, update_next_due_at, is_due, due_schedules}
use operion.Providers.Scheduler.Polling.{process_due_schedules}
use operion.Providers.Scheduler.Rounds.{
  event_of, Round, finished, passed_over, went_out, Round-events, process_each-Rounds,
}
use operion.Providers.Scheduler.Due.{overwritten, lookup-stored}

-- A schedule that names its source.
abbrev pub HasSource : Schedule → Type 0
HasSource s = (s.source_id == "") ≡ false

abbrev renewed_by : Result Schedule → Schedule → Schedule
renewed_by (err e) s = s
renewed_by (ok t) s = t

-- What a round leaves of the schedule under an identifier: a due one has its next time from now
-- on, unless its expression cannot be read.
pub renewed : Cron → ℕ → Option Schedule → Option Schedule
renewed k now none = none
renewed k now (some s) =
    some (if is_due now s then renewed_by (update_next_due_at k now s) s else s)

abbrev fold_in : Cron → ℕ → List Schedule → String → Option Schedule → Option Schedule
fold_in k now [] j o = o
fold_in k now (s ∷ ss) j o =
    fold_in k now ss j (if s.id == j then overwritten (update_next_due_at k now s) o else o)

All-filter :
    (p : Schedule → Bool) (ss : List Schedule) → All HasSource ss → All HasSource (filter p ss)
All-filter p [] h = h
All-filter p (s ∷ ss) (h, hs) = kept (p s) (All-filter p ss hs)
  where
    kept :
        (b : Bool)
        → All HasSource (filter p ss)
        → All HasSource (elim b [ true ↦ s ∷ filter p ss | false ↦ filter p ss ])
    kept true rest = (h, rest)
    kept false rest = rest

module _ (k : Cron) (now : ℕ) (j : String) where
  abbrev due_of : Dict Schedule → List Schedule
  due_of m = filter (is_due now) (values m)

  abbrev step : Schedule → Option Schedule → Option Schedule
  step s o = if s.id == j then overwritten (update_next_due_at k now s) o else o

  step_if_due :
      (b : Bool) (s : Schedule) (ss : List Schedule) (o : Option Schedule)
      → fold_in k now (elim b [ true ↦ s ∷ ss | false ↦ ss ]) j o
        ≡ fold_in k now ss j (if b then step s o else o)
  step_if_due true s ss o = refl
  step_if_due false s ss o = refl

  elsewhere :
      (b : Bool) (s : Schedule) (o : Option Schedule)
      → (s.id == j) ≡ false
      → (if b then step s o else o) ≡ o
  elsewhere true s o e = rw e refl
  elsewhere false s o e = refl

  here :
      (b : Bool) (s : Schedule)
      → (s.id == j) ≡ true
      → (if b then step s (some s) else some s)
        ≡ some (if b then renewed_by (update_next_due_at k now s) s else s)
  here true s e = rw e (of_result (update_next_due_at k now s))
    where
      of_result : (r : Result Schedule) → overwritten r (some s) ≡ some (renewed_by r s)
      of_result (ok t) = refl
      of_result (err e) = refl
  here false s e = refl

  -- The schedules under other identifiers.
  fold_in-absent :
      (m : Dict Schedule) (o : Option Schedule)
      → Filed (λ s. s.id) m
      → lookup j m ≡ none
      → fold_in k now (due_of m) j o ≡ o
  unfolding lookup
  fold_in-absent [] o h a = refl
  fold_in-absent ((i, s) ∷ m) o (p, q, h) a = elim (Bool-cases (i == j)) [
    | inl e ↦ absurd (cc (rw e at a))
    | inr e ↦
        step_if_due (is_due now s) s (due_of m) o
        ∙ ap (fold_in k now (due_of m) j) (elsewhere (is_due now s) s o (rw p e))
        ∙ fold_in-absent m o h (rw e at a)
  ]

  fold_in-renewed :
      (m : Dict Schedule)
      → Filed (λ s. s.id) m
      → fold_in k now (due_of m) j (lookup j m) ≡ renewed k now (lookup j m)
  unfolding lookup renewed
  fold_in-renewed [] h = refl
  fold_in-renewed ((i, s) ∷ m) (p, q, h) = elim (Bool-cases (i == j)) [
    | inl e ↦ rw e (
        step_if_due (is_due now s) s (due_of m) (some s)
        ∙ ap (fold_in k now (due_of m) j) (here (is_due now s) s (rw p e))
        ∙ fold_in-absent m _ h (rw ((eq_iff i j).0 e) at q))
    | inr e ↦ rw e (
        step_if_due (is_due now s) s (due_of m) (lookup j m)
        ∙ ap (fold_in k now (due_of m) j) (elsewhere (is_due now s) s (lookup j m) (rw p e))
        ∙ fold_in-renewed m h)
  ]

module _ (format : String → ℕ → String) (k : Cron) where
  Round-renewed :
      (ss : List Schedule) (w u : World) (es : List SourceEvent) (now : ℕ) (j : String)
      → Round format k ss w u es
      → w.now ≡ now
      → Quiet w.faults
      → All HasSource ss
      → (es ≡ map (event_of format k now) ss)
        × (lookup j u.sources.schedules ≡ fold_in k now ss j (lookup j w.sources.schedules))
  Round-renewed [] w u es now j finished t f a = (refl, refl)
  Round-renewed (s ∷ ss) w u es now j (passed_over n l p q (inl r) d) t f a = absurd (r f)
  Round-renewed (s ∷ ss) w u es now j (passed_over n l p q (inr r) d) t f (a, b) =
      absurd (cc (a, r))
  Round-renewed (s ∷ ss) w u es now j (went_out {v = v} {es = fs} n l p q d) t f (a, b) =
      let rest = Round-renewed ss v u fs now j d (n ∙ t) (l f) b in
      (
        ap (λ n. event_of format k n s ∷ fs) t ∙ ap (λ l. event_of format k now s ∷ l) rest.0,
        rest.1
            ∙ ap (fold_in k now ss j) (
                ap (lookup j) q
                ∙ lookup-stored k w.now s j w.sources.schedules
                ∙ ap
                    (λ n.
                      if s.id == j
                      then overwritten (update_next_due_at k n s) (lookup j w.sources.schedules)
                      else lookup j w.sources.schedules)
                    t),
      )

  -- The events of the due schedules are new on the bus, in their order and nothing else, and the
  -- schedule under the identifier is renewed.
  pub Renews : String → World → World → Type 0
  Renews j w u =
      (u.sources.events
        ≡ w.sources.events
          ++ map (event_of format k w.now) (filter (is_due w.now) (values w.sources.schedules)))
      × (lookup j u.sources.schedules ≡ renewed k w.now (lookup j w.sources.schedules))

  -- If nothing fails and each schedule names its source, a round of the poller publishes the events
  -- of the due schedules, in their order and nothing else, and under each identifier it leaves a due
  -- schedule with its next time from now on and any other as it was.
  pub process_due_schedules-renewed :
      (j : String) (w : World)
      → Filed (λ s. s.id) w.sources.schedules
      → All HasSource (values w.sources.schedules)
      → Quiet w.faults
      → Ensures (λ _ u. Renews j w u) Never (process_due_schedules format k w)
  unfolding process_due_schedules due_schedules Renews
  process_due_schedules-renewed j w h a f =
      Ensures-weaken
        (λ _ u (es, d).
          let r =
            Round-renewed due w u es w.now j d refl f
              (All-filter (is_due w.now) (values w.sources.schedules) a) in
          (
            Round-events format k due w u es d ∙ ap (λ l. w.sources.events ++ l) r.0,
            r.1 ∙ fold_in-renewed k w.now j w.sources.schedules h,
          ))
        (λ _ _ n. n) (process_each-Rounds format k due w)
    where
      due : List Schedule
      due = filter (is_due w.now) (values w.sources.schedules)
