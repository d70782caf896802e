-- ===== src/Commands/Verdicts.antt =====
-- Which workflows pass the commands that validate them (cmd/*/validate.go).
use operion.Base.{
  ℕ, Bool, true, false, not, ◌&&◌, ◌≡◌, ◌≢◌, ◌↔◌, refl, if◌then◌else◌, List, all, keys, Option,
  none, some,
}
use operion.Models.Workflow.{Workflow, WorkflowNode}
use operion.Registry.{Registry}
use mathlib.Core.Path.{subst}
use operion.Store.{World, M}
use operion.Store.Ensures.{Quiet, Ensures, returns, act-Ensures}
use operion.Store.Workflows.{get_all}
use operion.Store.Workflows.Effects.{loaded, get_all-Reads}
use operion.Publishing.{fetch_all}
use operion.Commands.{
  validate_sources, validate_triggers, Verdict, all_valid, invalid_triggers_found,
  invalid_providers_found, invalid_nodes_found, Counts, no_counts, count_all_sources,
  sources_verdict, count_all, triggers_verdict,
}
use operion.Commands.Counting.{
  clean, went_clean, has_providers, is_complete, count_all_sources-clean, count_all-clean,
}

-- A verdict on the triggers, then one on the others.
passes-clean :
    (k : ℕ) (other : Verdict) (a b : Bool)
    → other ≢ all_valid
    → ((if not a then invalid_triggers_found k else if not b then other else all_valid) ≡ all_valid)
      ↔ ((a && b) ≡ true)
passes-clean k other true true n = (λ e. refl, λ e. refl)
passes-clean k other true false n = (λ e. absurd (n e), λ e. absurd (cc))
passes-clean k other false b n = (λ e. absurd (cc), λ e. absurd (cc))

sources_verdict-clean :
    (is_valid : WorkflowNode → Bool) (r : Registry) (o : Option Counts)
    → (sources_verdict is_valid r o ≡ all_valid) ↔ (went_clean o ≡ true)
unfolding sources_verdict
sources_verdict-clean is_valid r none = (λ e. absurd (cc), λ e. absurd (cc))
sources_verdict-clean is_valid r (some t) =
    passes-clean t.invalid_triggers (invalid_providers_found t.invalid_others) _ _ (λ e. cc)

triggers_verdict-clean :
    (is_valid : WorkflowNode → Bool) (t : Counts)
    → (triggers_verdict is_valid t ≡ all_valid) ↔ (clean t ≡ true)
unfolding triggers_verdict
triggers_verdict-clean is_valid t =
    passes-clean t.invalid_triggers (invalid_nodes_found t.invalid_others) _ _ (λ e. cc)

-- A validation passes exactly if the workflows that are read do, and fails only if reading them
-- does; it changes nothing.
abbrev pub Decides : (Workflow → Bool) → World → M Verdict → Type 0
Decides passes w m =
    Ensures
      (λ v w'.
        ((v ≡ all_valid) ↔ (all passes (loaded w.workflows (keys w.workflows)) ≡ true))
        × (w'.workflows ≡ w.workflows))
      (λ e w'. (¬ Quiet w.faults) × (w'.workflows ≡ w.workflows)) (m w)

-- Over files, the validation of the source manager passes exactly if each workflow has trigger nodes
-- and each of them is valid and has a source and a registered provider; that of the activator
-- passes exactly if each workflow has trigger nodes with sources and all its nodes are valid. Both
-- change no workflow, and fail only if an operation on a file is to fail.
pub validate-Decides :
    (is_valid : WorkflowNode → Bool) (r : Registry) (w : World)
    → Decides (has_providers is_valid r) w (validate_sources is_valid r)
      × Decides (is_complete is_valid) w (validate_triggers is_valid)
unfolding validate_sources validate_triggers fetch_all
validate-Decides is_valid r w = (
  act-Ensures get_all _ (get_all-Reads w)
      (λ gs k. returns (
        subst
            (λ b.
              (sources_verdict is_valid r (count_all_sources is_valid r read no_counts) ≡ all_valid)
              ↔ (b ≡ true))
            (count_all_sources-clean is_valid r read no_counts)
            (sources_verdict-clean is_valid r (count_all_sources is_valid r read no_counts)),
        refl,
      ))
      (λ gs n. (n, refl)),
  act-Ensures get_all _ (get_all-Reads w)
      (λ gs k. returns (
        subst
            (λ b.
              (triggers_verdict is_valid (count_all is_valid read no_counts) ≡ all_valid)
              ↔ (b ≡ true))
            (count_all-clean is_valid read no_counts)
            (triggers_verdict-clean is_valid (count_all is_valid read no_counts)),
        refl,
      ))
      (λ gs n. (n, refl)),
)
  where
    read : List Workflow
    read = loaded w.workflows (keys w.workflows)
