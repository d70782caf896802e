-- ===== src/Providers/Manager/Starting.antt =====
-- Which providers run (cmd/operion-source-manager/manager.go, `startProvider`).
use operion.Base.{
  eq_refl, ◌≡◌, refl, ◌∙◌, ◌⊎◌, inl, inr, String, Dict, List, Option, [], lookup, insert,
  lookup-insert, lookup-delete, none, some,
}
use operion.Models.Workflow.{Workflow}
use operion.Store.Workflows.{get_all}
use operion.Store.{M, World, Outcome, done, fail, Result, ok, err, ◌>>=◌, attempt}
use operion.Store.Ensures.{Ensures, returns, Never, Returns}
use operion.Registry.{Lifecycle, Provider, ProviderFactory, Registry, create_provider}
use operion.Providers.{callback}
use operion.Providers.Manager.{
  Running, lifecycle_of, execute_provider_lifecycle, update_triggers_with_source_ids, unless_failed,
  run_provider, run_created, start_provider,
}

-- The lifecycle of a provider from `w` to `v`, each step in the world that the one before has left:
-- it has been initialised and configured with the workflows, their trigger nodes have got the sources
-- to which it maps them, and it has been prepared.
pub data Run (c : Lifecycle) (w v : World) : Type 0 where
  ran :
      {initialized read configured updated : World} {workflows : List Workflow}
      {mapped : Dict String}
      → c.initialize w ≡ done tt initialized
      → get_all initialized ≡ done workflows read
      → c.configure workflows read ≡ done mapped configured
      → update_triggers_with_source_ids mapped configured ≡ done tt updated
      → c.prepare updated ≡ done tt v
      → Run c w v

-- The same of a provider that need not have a lifecycle.
abbrev pub GoneThrough : Option Lifecycle → World → World → Type 0
GoneThrough none w v = w ≡ v
GoneThrough (some c) w v = Run c w v

-- What returns has its parts return.
>>=-parts :
    {A B : Type 0} {b : B} {v : World} (o : Outcome A) (f : A → M B)
    → (elim o [ done a u ↦ f a u | fail e u ↦ fail e u ]) ≡ done b v
    → (a : A) × (u : World) × (o ≡ done a u) × (f a u ≡ done b v)
>>=-parts (done a u) f e = (a, u, refl, e)
>>=-parts (fail x u) f e = absurd (cc e)

execute_provider_lifecycle-Run :
    (c : Lifecycle) (w v : World) → execute_provider_lifecycle c w ≡ done tt v → Run c w v
unfolding execute_provider_lifecycle
execute_provider_lifecycle-Run c w v e =
    let (_, a, p, f) = >>=-parts (c.initialize w) _ e in
    let (_, b, q, g) = >>=-parts (get_all a) _ f in
    let (_, d, r, h) = >>=-parts _ _ g in let (_, u, s, i) = >>=-parts _ _ h in ran p q r s i

lifecycle_of-GoneThrough :
    (l : Option Lifecycle) (w v : World) → lifecycle_of l w ≡ done tt v → GoneThrough l w v
lifecycle_of-GoneThrough none w v e = cc e
lifecycle_of-GoneThrough (some c) w v e = execute_provider_lifecycle-Run c w v e

-- The provider has been made, it has gone through its lifecycle, and its start has returned.
pub Started : Registry → ProviderFactory → World → Provider → Type 0
Started r f w p =
    (create_provider r f.id [] ≡ ok p)
    × ((v : World) × GoneThrough p.lifecycle w v × Returns (p.start callback v))

-- The provider does not run, or it has started.
pub StartedOrAbsent : Registry → ProviderFactory → World → Running → Type 0
StartedOrAbsent r f w running =
    (lookup f.id running ≡ none)
    ⊎ ((p : Provider) × (lookup f.id running ≡ some p) × Started r f w p)

-- If a provider did not run, then starting it returns, whatever fails, and afterwards it does not
-- run either, or it has been made, has been initialised, configured and prepared in this order, with
-- the update of the trigger nodes before it is prepared, if it has a lifecycle, and has started.
pub start_provider-Started :
    (r : Registry) (f : ProviderFactory) (running : Running) (w : World)
    → lookup f.id running ≡ none
    → Ensures
        (λ now_running _. StartedOrAbsent r f w now_running)
        Never
        (start_provider r f running w)
unfolding start_provider Started StartedOrAbsent
start_provider-Started r f running w absent = of_created (create_provider r f.id []) refl
  where
    of_start :
        (p : Provider) (v : World) (o : Outcome (Unit {0}))
        → create_provider r f.id [] ≡ ok p
        → lifecycle_of p.lifecycle w ≡ done tt v
        → p.start callback v ≡ o
        → Ensures
            (λ now_running _. StartedOrAbsent r f w now_running)
            Never
            ((attempt (λ _. o) >>= unless_failed f.id (insert f.id p running)) v)
    of_start p v (fail e u) c l s =
        returns (inl (lookup-delete f.id f.id (insert f.id p running) ∙ rw (eq_refl f.id) refl))
    of_start p v (done _ u) c l s = returns (
        inr (
          p,
          lookup-insert f.id f.id p running ∙ rw (eq_refl f.id) refl,
          (c, (v, lifecycle_of-GoneThrough p.lifecycle w v l, (tt, u, s))),
        ))

    of_lifecycle :
        (p : Provider) (o : Outcome (Unit {0}))
        → create_provider r f.id [] ≡ ok p
        → lifecycle_of p.lifecycle w ≡ o
        → Ensures
            (λ now_running _. StartedOrAbsent r f w now_running)
            Never
            ((attempt (λ _. o) >>= run_provider f.id p running) w)
    of_lifecycle p (fail e v) c l = returns (inl absent)
    of_lifecycle p (done _ v) c l = of_start p v (p.start callback v) c l refl

    of_created :
        (c : Result Provider)
        → create_provider r f.id [] ≡ c
        → Ensures
            (λ now_running _. StartedOrAbsent r f w now_running)
            Never
            (run_created f.id running c w)
    of_created (err e) c = returns (inl absent)
    of_created (ok p) c = of_lifecycle p (lifecycle_of p.lifecycle w) c refl
