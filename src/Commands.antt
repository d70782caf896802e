-- ===== src/Commands.antt =====
-- The commands that validate workflows (cmd/operion-source-manager/validate.go and
-- cmd/operion-activator/validate.go): their counts and how they end, without what they print.
-- `is_valid` is the check of a node by the validator's library, `validate.Struct`.
pub mod Counting
pub mod Verdicts
use operion.Base.{
  ℕ, zero, suc, String, Bool, true, false, not, ◌||◌, ◌==◌, eqb, if◌then◌else◌, List, [], ◌∷◌,
  filter, is_empty, Dict, lookup, Option, none, some,
}
use operion.Models.Workflow.{Workflow, WorkflowNode, is_trigger_node}
use operion.Store.{M, ◌>>=◌, pure}
use operion.Registry.{Registry, ProviderFactory}
use operion.Publishing.{fetch_all}
use operion.Nodes.Common.{text_or}

-- How a validation ends: with nil, with an error and the number of what is invalid, or in a panic.
pub data Verdict : Type 0 where
  all_valid : Verdict
  invalid_triggers_found : ℕ → Verdict
  invalid_providers_found : ℕ → Verdict
  invalid_nodes_found : ℕ → Verdict
  panicked : Verdict

-- The counts of either command; the source manager counts providers, the activator other nodes.
pub record Counts : Type 0 where
  pub valid_triggers : ℕ
  pub invalid_triggers : ℕ
  pub valid_others : ℕ
  pub invalid_others : ℕ

abbrev pub no_counts : Counts
no_counts = record {
  valid_triggers = 0;
  invalid_triggers = 0;
  valid_others = 0;
  invalid_others = 0;
}

abbrev pub lacks_source : WorkflowNode → Bool
lacks_source n = text_or "" n.source_id == ""

abbrev pub trigger_nodes : Workflow → List WorkflowNode
trigger_nodes x = filter is_trigger_node x.nodes

abbrev pub and_then : Option Counts → (Counts → Option Counts) → Option Counts
and_then none f = none
and_then (some t) f = f t

abbrev pub invalid_trigger : Counts → Counts
invalid_trigger t = record t { invalid_triggers = suc t.invalid_triggers }

abbrev pub count_provider : Option ProviderFactory → Counts → Counts
count_provider none t = record t {
  valid_triggers = suc t.valid_triggers;
  invalid_others = suc t.invalid_others;
}
count_provider (some factory) t = record t {
  valid_triggers = suc t.valid_triggers;
  valid_others = suc t.valid_others;
}

module _ (is_valid : WorkflowNode → Bool) (r : Registry) where
  -- A trigger node; without a provider the command panics.
  unfoldable pub count_source : WorkflowNode → Counts → Option Counts
  count_source n t =
      if not (is_valid n) || lacks_source n
      then some (invalid_trigger t)
      else if text_or "" n.provider_id == ""
      then none
      else some (count_provider (lookup (text_or "" n.provider_id) r.provider_factories) t)

  unfoldable pub count_sources : List WorkflowNode → Counts → Option Counts
  count_sources [] t = some t
  count_sources (n ∷ ns) t = and_then (count_source n t) (λ u. count_sources ns u)

  unfoldable pub count_workflow_sources : Workflow → Counts → Option Counts
  count_workflow_sources x t =
      if is_empty (trigger_nodes x)
      then some (invalid_trigger t)
      else count_sources (trigger_nodes x) t

  unfoldable pub count_all_sources : List Workflow → Counts → Option Counts
  count_all_sources [] t = some t
  count_all_sources (x ∷ xs) t = and_then (count_workflow_sources x t) (λ u. count_all_sources xs u)

  unfoldable pub sources_verdict : Option Counts → Verdict
  sources_verdict none = panicked
  sources_verdict (some t) =
      if not (eqb t.invalid_triggers 0)
      then invalid_triggers_found t.invalid_triggers
      else if not (eqb t.invalid_others 0)
      then invalid_providers_found t.invalid_others
      else all_valid

  -- The action of the source manager's `NewValidateCommand`.
  unfoldable pub validate_sources : M Verdict
  validate_sources = do xs ← fetch_all; pure (sources_verdict (count_all_sources xs no_counts))

module _ (is_valid : WorkflowNode → Bool) where
  unfoldable pub count_trigger : WorkflowNode → Counts → Counts
  count_trigger n t =
      if not (is_valid n) || lacks_source n
      then invalid_trigger t
      else record t { valid_triggers = suc t.valid_triggers }

  unfoldable pub count_triggers : List WorkflowNode → Counts → Counts
  count_triggers [] t = t
  count_triggers (n ∷ ns) t = count_triggers ns (count_trigger n t)

  unfoldable pub count_node : WorkflowNode → Counts → Counts
  count_node n t =
      if is_trigger_node n
      then t
      else if is_valid n
      then record t { valid_others = suc t.valid_others }
      else record t { invalid_others = suc t.invalid_others }

  unfoldable pub count_nodes : List WorkflowNode → Counts → Counts
  count_nodes [] t = t
  count_nodes (n ∷ ns) t = count_nodes ns (count_node n t)

  -- The other nodes of a workflow without trigger nodes are not looked at.
  unfoldable pub count_workflow : Workflow → Counts → Counts
  count_workflow x t =
      if is_empty (trigger_nodes x)
      then invalid_trigger t
      else count_nodes x.nodes (count_triggers (trigger_nodes x) t)

  unfoldable pub count_all : List Workflow → Counts → Counts
  count_all [] t = t
  count_all (x ∷ xs) t = count_all xs (count_workflow x t)

  unfoldable pub triggers_verdict : Counts → Verdict
  triggers_verdict t =
      if not (eqb t.invalid_triggers 0)
      then invalid_triggers_found t.invalid_triggers
      else if not (eqb t.invalid_others 0)
      then invalid_nodes_found t.invalid_others
      else all_valid

  -- The action of the activator's `NewValidateCommand`.
  unfoldable pub validate_triggers : M Verdict
  validate_triggers = do xs ← fetch_all; pure (triggers_verdict (count_all xs no_counts))
