-- ===== src/Publishing/Invalid.antt =====
-- Publishing a workflow that is not ready to be published (pkg/workflow/publishing.go).
use operion.Base.{
  String, Bool, true, false, Bool-cases, if◌then◌else◌, ◌==◌, eq_iff, ◌⊎◌, inl, inr, ◌≡◌, refl,
  List, [], ◌∷◌, All, any, is_empty, some, lookup,
}
use operion.Models.Workflow.{Workflow, WorkflowNode, category_trigger}
use operion.Models.Event.{Error, invalid_workflow}
use operion.Store.{World, Outcome, done, fail}
use operion.Store.Ensures.{Ensures, raises, Ensures-done, Ensures-fail, act-Ensures}
use operion.Store.Workflows.{get_by_id}
use operion.Store.Workflows.Effects.{get_by_id-Reads}
use operion.Publishing.{publish, validate_for_publishing, is_enabled_trigger}

-- An error, with the folder of workflows as it was.
abbrev pub IsRefused : {A : Type 0} → World → Outcome A → Type 0
IsRefused w (done a w') = ⊥
IsRefused w (fail e w') = w'.workflows ≡ w.workflows

refused_lem :
    {A : Type 0} (w : World) (o : Outcome A)
    → Ensures (λ _ _. ⊥) (λ _ w'. w'.workflows ≡ w.workflows) o
    → IsRefused w o
refused_lem w (done a w') h = Ensures-done h
refused_lem w (fail e w') h = Ensures-fail h

publish-Ensures :
    (id : String) (x : Workflow) (error : Error) (w : World)
    → lookup id w.workflows ≡ some x
    → validate_for_publishing x ≡ some error
    → Ensures (λ _ _. ⊥) (λ _ w'. w'.workflows ≡ w.workflows) (publish id w)
unfolding publish
publish-Ensures id x error w found invalid =
    act-Ensures (get_by_id id) _ (get_by_id-Reads id w)
      (λ gs kept. rw (found, invalid) (raises refl)) (λ gs n. refl)

-- A workflow without a name, or without a node that is an enabled trigger.
abbrev pub Unready : Workflow → Type 0
Unready x =
    (x.name ≡ "") ⊎ All (λ n. ¬ ((n.category ≡ category_trigger) × (n.enabled ≡ true))) x.nodes

none_enabled :
    (ns : List WorkflowNode)
    → All (λ n. ¬ ((n.category ≡ category_trigger) × (n.enabled ≡ true))) ns
    → any is_enabled_trigger ns ≡ false
unfolding is_enabled_trigger
none_enabled [] h = refl
none_enabled (n ∷ ns) (k, h) = elim (Bool-cases (n.category == category_trigger)) [
  | inl q ↦ elim (Bool-cases n.enabled) [
    | inl e ↦ absurd (k ((eq_iff n.category category_trigger).0 q, e))
    | inr e ↦ rw (q, e) (none_enabled ns h)
  ]
  | inr q ↦ rw q (none_enabled ns h)
]

Unready-error :
    (x : Workflow) → Unready x → (error : Error) × (validate_for_publishing x ≡ some error)
unfolding validate_for_publishing
Unready-error x (inl e) = rw (e) (_, refl)
Unready-error x (inr h) = rw (none_enabled x.nodes h) (some_error (x.name == "") (is_empty x.nodes))
  where
    some_error :
        (a b : Bool)
        → (error : Error) × ((if a
              then some (invalid_workflow "name")
              else if b
              then some (invalid_workflow "nodes")
              else some (invalid_workflow "trigger"))
            ≡ some error)
    some_error true b = (_, refl)
    some_error false true = (_, refl)
    some_error false false = (_, refl)

-- Publishing an existing workflow that has no name, or no node that is an enabled trigger, returns an
-- error and changes no workflow, whatever fails besides.
pub publish-IsRefused :
    (id : String) (x : Workflow) (w : World)
    → lookup id w.workflows ≡ some x
    → Unready x
    → IsRefused w (publish id w)
publish-IsRefused id x w found unready =
    let (error, invalid) = Unready-error x unready in
    refused_lem w (publish id w) (publish-Ensures id x error w found invalid)
