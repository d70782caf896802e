-- ===== src/Providers/Scheduler/Due.antt =====
-- What a round of the scheduler's poller makes of the due schedules
-- (pkg/providers/scheduler/provider.go, `processDueSchedules`).
use mathlib.Core.List.{Memᴰ}
use mathlib.Core.List.Memᴰ
use operion.Base.{
  ℕ, String, Bool, true, false, ◌==◌, eq_iff, ◌≡◌, refl, sym, ap, ◌∙◌, ◌⊎◌, inl, inr, Bool-cases,
  if◌then◌else◌, List, [], ◌∷◌, ◌++◌, filter, Dict, lookup, values, lookup-insert, Option, none,
  some, Filed, lookup-Filed,
}
use operion.Models.Event.{SourceEvent}
use operion.Models.Source.{Schedule}
use operion.Store.{World, Result, ok, err}
use operion.Store.Ensures.{Ensures, Ensures-weaken, Never}
use operion.Providers.Scheduler.{
  Cron, update_next_due_at, calculate_next_due_at, calculated, is_due, due_schedules,
}
use operion.Providers.Scheduler.Polling.{process_due_schedules}
use operion.Providers.Scheduler.Rounds.{
  event_of, stored, Round, finished, passed_over, went_out, Rounds, Round-events,
  process_each-Rounds,
}

-- `s` with its next time, if its expression can be read.
abbrev pub overwritten : Result Schedule → Option Schedule → Option Schedule
overwritten (err e) o = o
overwritten (ok t) o = some t

pub lookup-stored :
    (k : Cron) (now : ℕ) (s : Schedule) (j : String) (m : Dict Schedule)
    → lookup j (stored (update_next_due_at k now s) m)
      ≡ (if s.id == j then overwritten (update_next_due_at k now s) (lookup j m) else lookup j m)
unfolding update_next_due_at calculate_next_due_at
lookup-stored k now s j m = parsed (k.parse s.cron_expression)
  where
    parsed :
        (r : Option (ℕ → ℕ))
        → lookup j (stored (calculated now now s r) m)
          ≡ (if s.id == j then overwritten (calculated now now s r) (lookup j m) else lookup j m)
    parsed none = elim (Bool-cases (s.id == j)) [ inl e ↦ rw e refl | inr e ↦ rw e refl ]
    parsed (some next) =
        lookup-insert s.id j (record s { next_due_at = next now; updated_at = now }) m

module _ (format : String → ℕ → String) (k : Cron) where
  -- If a schedule is another one after a round, an event of the round is that of a schedule with
  -- its identifier.
  changed :
      (ss : List Schedule) (w u : World) (es : List SourceEvent) (now : ℕ) (j : String)
      → Round format k ss w u es
      → w.now ≡ now
      → (lookup j u.sources.schedules ≡ lookup j w.sources.schedules)
        ⊎ ((s : Schedule) × Memᴰ s ss × (s.id ≡ j) × Memᴰ (event_of format k now s) es)
  changed [] w u es now j finished t = inl refl
  changed (s ∷ ss) w u es now j (passed_over {v = v} n l p q r d) t =
      unchanged (changed ss v u es now j d (n ∙ t))
    where
      unchanged :
          (lookup j u.sources.schedules ≡ lookup j v.sources.schedules)
            ⊎ ((s : Schedule) × Memᴰ s ss × (s.id ≡ j) × Memᴰ (event_of format k now s) es)
          → (lookup j u.sources.schedules ≡ lookup j w.sources.schedules)
            ⊎ ((x : Schedule) × Memᴰ x (s ∷ ss) × (x.id ≡ j) × Memᴰ (event_of format k now x) es)
      unchanged (inl e) = inl (e ∙ ap (lookup j) q)
      unchanged (inr (x, m, i, f)) = inr (x, Memᴰ.tail m, i, f)
  changed (s ∷ ss) w u es now j (went_out {v = v} {es = fs} n l p q d) t =
      one_more (changed ss v u fs now j d (n ∙ t))
    where
      one_more :
          (lookup j u.sources.schedules ≡ lookup j v.sources.schedules)
            ⊎ ((s : Schedule) × Memᴰ s ss × (s.id ≡ j) × Memᴰ (event_of format k now s) fs)
          → (lookup j u.sources.schedules ≡ lookup j w.sources.schedules)
            ⊎ ((x : Schedule) × Memᴰ x (s ∷ ss)
                × (x.id ≡ j)
                × Memᴰ (event_of format k now x) (event_of format k w.now s ∷ fs))
      one_more (inr (x, m, i, f)) = inr (x, Memᴰ.tail m, i, Memᴰ.tail f)
      one_more (inl e) = elim (Bool-cases (s.id == j)) [
        | inl b ↦ inr (
          s,
          Memᴰ.head refl,
          (eq_iff s.id j).0 b,
          Memᴰ.head (ap (λ now. event_of format k now s) (sym t)),
        )
        | inr b ↦
            inl (e ∙ ap (lookup j) q ∙ lookup-stored k w.now s j w.sources.schedules ∙ rw b refl)
      ]

  Memᴰ-filter :
      (p : Schedule → Bool) (s : Schedule) (ss : List Schedule)
      → Memᴰ s (filter p ss)
      → Memᴰ s ss × (p s ≡ true)
  Memᴰ-filter p s [] d = absurd (Memᴰ.not-nil d)
  Memᴰ-filter p s (t ∷ ss) d = kept (Memᴰ-filter p s ss) (p t) refl d
    where
      kept :
          (Memᴰ s (filter p ss) → Memᴰ s ss × (p s ≡ true))
          → (b : Bool) → p t ≡ b
          → Memᴰ s (elim b [ true ↦ t ∷ filter p ss | false ↦ filter p ss ])
          → Memᴰ s (t ∷ ss) × (p s ≡ true)
      kept rest true e d = elim (Memᴰ.cases_cons d) [
        | inl q ↦ (Memᴰ.head q, ap p q ∙ e)
        | inr d' ↦ let h = rest d' in (Memᴰ.tail h.0, h.1)
      ]
      kept rest false e d = let h = rest d in (Memᴰ.tail h.0, h.1)

  -- From a world to a later one there are new events on the bus, and if the schedule under the
  -- identifier is another one, the schedule there was due, and its event is among them.
  pub Changes : String → World → World → Type 0
  Changes j w u =
      (es : List SourceEvent) × (u.sources.events ≡ w.sources.events ++ es)
      × ((lookup j u.sources.schedules ≡ lookup j w.sources.schedules)
          ⊎ ((s : Schedule) × (lookup j w.sources.schedules ≡ some s)
              × (is_due w.now s ≡ true)
              × Memᴰ (event_of format k w.now s) es))

  -- Whatever fails, a round of the poller ends; and if it has left another schedule under an
  -- identifier, the schedule there was due, and its event is among the new ones on the bus.
  pub process_due_schedules-changed :
      (j : String) (w : World)
      → Filed (λ s. s.id) w.sources.schedules
      → Ensures (λ _ u. Changes j w u) Never (process_due_schedules format k w)
  unfolding process_due_schedules due_schedules Changes
  process_due_schedules-changed j w h =
      Ensures-weaken of_round (λ _ _ n. n) (process_each-Rounds format k due w)
    where
      due : List Schedule
      due = filter (is_due w.now) (values w.sources.schedules)

      of_round : Unit {0} → (u : World) → Rounds format k due w u → Changes j w u
      of_round _ u (es, d) = (
        es,
        Round-events format k due w u es d,
        elim (changed due w u es w.now j d refl) [
          | inl e ↦ inl e
          | inr (s, m, i, f) ↦
              let t = Memᴰ-filter (is_due w.now) s (values w.sources.schedules) m in
              inr (
                s,
                ap (λ j. lookup j w.sources.schedules) (sym i)
                    ∙ lookup-Filed (λ s. s.id) s w.sources.schedules h t.0,
                t.1,
                f,
              )
        ],
      )
