-- ===== src/Commands/Counting.antt =====
-- What the commands that validate workflows count as invalid (cmd/*/validate.go).
use operion.Base.{
  suc, Bool, true, false, not, ◌&&◌, ◌||◌, ◌==◌, eqb, arith, ◌≡◌, refl, sym, ap, ◌∙◌, inl, inr,
  Bool-cases, if◌then◌else◌, List, [], ◌∷◌, all, is_empty, lookup, Option, none, some,
}
use operion.Models.Workflow.{Workflow, WorkflowNode, is_trigger_node}
use operion.Registry.{Registry, ProviderFactory}
use operion.Nodes.Common.{text_or}
use operion.Commands.{
  Counts, lacks_source, trigger_nodes, and_then, invalid_trigger, count_provider, count_source,
  count_sources, count_workflow_sources, count_all_sources, count_trigger, count_triggers,
  count_node, count_nodes, count_workflow, count_all,
}

-- Nothing invalid has been counted.
abbrev pub clean : Counts → Bool
clean t = eqb t.invalid_triggers 0 && eqb t.invalid_others 0

-- And there was no panic.
abbrev pub went_clean : Option Counts → Bool
went_clean none = false
went_clean (some t) = clean t

and_assoc : (a b c : Bool) → ((a && b) && c) ≡ (a && (b && c))
and_assoc true b c = refl
and_assoc false b c = refl

and_false : (a : Bool) → (a && false) ≡ false
and_false true = refl
and_false false = refl

and_true : (a : Bool) → (a && true) ≡ a
and_true true = refl
and_true false = refl

abbrev pub is_registered : Option ProviderFactory → Bool
is_registered none = false
is_registered (some factory) = true

and_then-clean :
    (o : Option Counts) (f : Counts → Option Counts) (b : Bool)
    → ((t : Counts) → went_clean (f t) ≡ (clean t && b))
    → went_clean (and_then o f) ≡ (went_clean o && b)
and_then-clean none f b h = refl
and_then-clean (some t) f b h = h t

invalid_trigger-clean : (t : Counts) → clean (invalid_trigger t) ≡ false
invalid_trigger-clean t = ground arith

count_provider-clean :
    (o : Option ProviderFactory) (t : Counts)
    → clean (count_provider o t) ≡ (clean t && is_registered o)
count_provider-clean none t = ground arith
count_provider-clean (some factory) t = ground arith

module _ (is_valid : WorkflowNode → Bool) (r : Registry) where
  -- A trigger node that is valid and has a source and a registered provider.
  abbrev pub has_provider : WorkflowNode → Bool
  has_provider n =
      (is_valid n && not (lacks_source n))
      && (not (text_or "" n.provider_id == "")
          && is_registered (lookup (text_or "" n.provider_id) r.provider_factories))

  -- A workflow with trigger nodes that all have a provider.
  abbrev pub has_providers : Workflow → Bool
  has_providers x = not (is_empty (trigger_nodes x)) && all has_provider (trigger_nodes x)

  count_source-clean :
      (n : WorkflowNode) (t : Counts)
      → went_clean (count_source is_valid r n t) ≡ (clean t && has_provider n)
  unfolding count_source
  count_source-clean n t = tested (is_valid n) (lacks_source n) (text_or "" n.provider_id == "")
    where
      o : Option ProviderFactory
      o = lookup (text_or "" n.provider_id) r.provider_factories

      tested :
          (a b c : Bool)
          → went_clean (
              if not a || b
              then some (invalid_trigger t)
              else if c
              then none
              else some (count_provider o t))
            ≡ (clean t && ((a && not b) && (not c && is_registered o)))
      tested false b c = invalid_trigger-clean t ∙ sym (and_false (clean t))
      tested true true c = invalid_trigger-clean t ∙ sym (and_false (clean t))
      tested true false true = sym (and_false (clean t))
      tested true false false = count_provider-clean o t

  count_sources-clean :
      (ns : List WorkflowNode) (t : Counts)
      → went_clean (count_sources is_valid r ns t) ≡ (clean t && all has_provider ns)
  unfolding count_sources
  count_sources-clean [] t = sym (and_true (clean t))
  count_sources-clean (n ∷ ns) t =
      and_then-clean (count_source is_valid r n t) _ (all has_provider ns)
        (λ u. count_sources-clean ns u)
      ∙ ap (λ b. b && all has_provider ns) (count_source-clean n t)
      ∙ and_assoc (clean t) (has_provider n) (all has_provider ns)

  count_workflow_sources-clean :
      (x : Workflow) (t : Counts)
      → went_clean (count_workflow_sources is_valid r x t) ≡ (clean t && has_providers x)
  unfolding count_workflow_sources
  count_workflow_sources-clean x t = elim (Bool-cases (is_empty (trigger_nodes x))) [
    | inl e ↦ rw e (invalid_trigger-clean t ∙ sym (and_false (clean t)))
    | inr e ↦ rw e (count_sources-clean (trigger_nodes x) t)
  ]

  pub count_all_sources-clean :
      (xs : List Workflow) (t : Counts)
      → went_clean (count_all_sources is_valid r xs t) ≡ (clean t && all has_providers xs)
  unfolding count_all_sources
  count_all_sources-clean [] t = sym (and_true (clean t))
  count_all_sources-clean (x ∷ xs) t =
      and_then-clean (count_workflow_sources is_valid r x t) _ (all has_providers xs)
        (λ u. count_all_sources-clean xs u)
      ∙ ap (λ b. b && all has_providers xs) (count_workflow_sources-clean x t)
      ∙ and_assoc (clean t) (has_providers x) (all has_providers xs)

module _ (is_valid : WorkflowNode → Bool) where
  -- A trigger node that is valid and has a source.
  abbrev pub has_source : WorkflowNode → Bool
  has_source n = is_valid n && not (lacks_source n)

  -- A workflow with trigger nodes that all have a source, where all nodes are valid.
  abbrev pub is_complete : Workflow → Bool
  is_complete x =
      not (is_empty (trigger_nodes x))
      && (all has_source (trigger_nodes x) && all (λ n. is_trigger_node n || is_valid n) x.nodes)

  count_triggers-clean :
      (ns : List WorkflowNode) (t : Counts)
      → clean (count_triggers is_valid ns t) ≡ (clean t && all has_source ns)
  unfolding count_triggers count_trigger
  count_triggers-clean [] t = sym (and_true (clean t))
  count_triggers-clean (n ∷ ns) t =
      count_triggers-clean ns (count_trigger is_valid n t)
      ∙ ap (λ b. b && all has_source ns) (tested (is_valid n) (lacks_source n))
      ∙ and_assoc (clean t) (has_source n) (all has_source ns)
    where
      tested :
          (a b : Bool)
          → clean (
              if not a || b
              then invalid_trigger t
              else record t { valid_triggers = suc t.valid_triggers })
            ≡ (clean t && (a && not b))
      tested false b = invalid_trigger-clean t ∙ sym (and_false (clean t))
      tested true true = invalid_trigger-clean t ∙ sym (and_false (clean t))
      tested true false = sym (and_true (clean t))

  count_nodes-clean :
      (ns : List WorkflowNode) (t : Counts)
      → clean (count_nodes is_valid ns t)
        ≡ (clean t && all (λ n. is_trigger_node n || is_valid n) ns)
  unfolding count_nodes count_node
  count_nodes-clean [] t = sym (and_true (clean t))
  count_nodes-clean (n ∷ ns) t =
      count_nodes-clean ns (count_node is_valid n t)
      ∙ ap (λ b. b && rest) (tested (is_trigger_node n) (is_valid n))
      ∙ and_assoc (clean t) (is_trigger_node n || is_valid n) rest
    where
      rest : Bool
      rest = all (λ n. is_trigger_node n || is_valid n) ns

      tested :
          (a b : Bool)
          → clean (
              if a
              then t
              else if b
              then record t { valid_others = suc t.valid_others }
              else record t { invalid_others = suc t.invalid_others })
            ≡ (clean t && (a || b))
      tested true b = sym (and_true (clean t))
      tested false true = sym (and_true (clean t))
      tested false false = ground arith

  count_workflow-clean :
      (x : Workflow) (t : Counts) → clean (count_workflow is_valid x t) ≡ (clean t && is_complete x)
  unfolding count_workflow
  count_workflow-clean x t = elim (Bool-cases (is_empty (trigger_nodes x))) [
    | inl e ↦ rw e (invalid_trigger-clean t ∙ sym (and_false (clean t)))
    | inr e ↦ rw e (
        count_nodes-clean x.nodes (count_triggers is_valid (trigger_nodes x) t)
        ∙ ap (λ b. b && others) (count_triggers-clean (trigger_nodes x) t)
        ∙ and_assoc (clean t) (all has_source (trigger_nodes x)) others)
  ]
    where
      others : Bool
      others = all (λ n. is_trigger_node n || is_valid n) x.nodes

  pub count_all-clean :
      (xs : List Workflow) (t : Counts)
      → clean (count_all is_valid xs t) ≡ (clean t && all is_complete xs)
  unfolding count_all
  count_all-clean [] t = sym (and_true (clean t))
  count_all-clean (x ∷ xs) t =
      count_all-clean xs (count_workflow is_valid x t)
      ∙ ap (λ b. b && all is_complete xs) (count_workflow-clean x t)
      ∙ and_assoc (clean t) (is_complete x) (all is_complete xs)
