-- ===== src/Providers/Manager/Updating.antt =====
-- The sources of the trigger nodes in the files of workflows after a provider has been configured
-- (cmd/operion-source-manager/manager.go, `updateTriggersWithSourceIDs`).
use mathlib.Core.Option
use operion.Base.{
  ℕ, String, Bool, true, false, ◌&&◌, ◌==◌, eq_iff, ◌≡◌, refl, sym, ap, ◌∙◌, inl, inr, Bool-cases,
  Option-cases, if◌then◌else◌, List, [], ◌∷◌, map, any, Dict, keys, lookup, Option, none, some,
}
use operion.Models.Workflow.{Workflow, WorkflowNode, is_trigger_node}
use operion.Store.{World}
use operion.Store.Ensures.{Quiet, Ensures, returns, Ensures-weaken, act-Ensures, Never}
use operion.Store.Workflows.{get_all, save, stamp, with_found}
use operion.Store.Workflows.Effects.{get_all-Reads, loaded, saved, save-Acts}
use operion.Store.Versions.Retire.{IsKeyed, lookup-write_file, any-keys}
use operion.Providers.Manager.{with_nodes, save_if, update_each, update_triggers_with_source_ids}
use operion.Providers.Manager.Moving.{moves, moved, update_trigger_nodes-moved, with_sources}

module _ (mapped : Dict String) (now : ℕ) (j : String) where
  -- What a save leaves in the file `j`.
  abbrev step : Bool → Workflow → Option Workflow → Option Workflow
  step moving x o = if moving && x.id == j then some (with_sources mapped now x) else o

  abbrev fold_in : List Workflow → Option Workflow → Option Workflow
  fold_in [] o = o
  fold_in (x ∷ xs) o = fold_in xs (step (any (moves mapped) x.nodes) x o)

  -- The file `j` with the workflow `x` after it has had its turn.
  abbrev settle : Option Workflow → Option Workflow → Option Workflow
  settle none o = o
  settle (some x) o = if any (moves mapped) x.nodes then some (with_sources mapped now x) else o

  settle-settle : (x o : Option Workflow) → settle x (settle x o) ≡ settle x o
  settle-settle none o = refl
  settle-settle (some x) o = elim (Bool-cases (any (moves mapped) x.nodes)) [
    | inl q ↦ rw q refl
    | inr q ↦ rw q refl
  ]

  with_sources-moving :
      (x : Workflow)
      → any (moves mapped) x.nodes ≡ true
      → with_sources mapped now x ≡ stamp now (with_nodes (map (moved mapped) x.nodes) x)
  unfolding with_sources
  with_sources-moving x e = simp e refl

  with_sources-resting :
      (x : Workflow) → any (moves mapped) x.nodes ≡ false → with_sources mapped now x ≡ x
  unfolding with_sources
  with_sources-resting x e = simp e refl

  if_same : {p q : Option Workflow} (b : Bool) → p ≡ q → (if b then p else q) ≡ q
  if_same true e = e
  if_same false e = refl

  step-settle :
      (b : Bool) (x : Workflow) (o : Option Workflow)
      → x.id ≡ j
      → any (moves mapped) x.nodes ≡ b
      → step b x o ≡ settle (some x) o
  step-settle true x o i e = simp (e, (eq_iff x.id j).1 i) refl
  step-settle false x o i e = simp e refl

  step-other :
      (b : Bool) (x : Workflow) (o : Option Workflow) → (x.id == j) ≡ false → step b x o ≡ o
  step-other true x o e = simp e refl
  step-other false x o e = refl

  module _ (m : Dict Workflow) (keyed : IsKeyed m) where
    fold_in-loaded :
        (ids : List String) (o : Option Workflow)
        → fold_in (loaded m ids) o ≡ (if any (λ i. i == j) ids then settle (lookup j m) o else o)
    fold_in-loaded [] o = refl
    fold_in-loaded (i ∷ ids) o = elim (Bool-cases (i == j)) [
      | inl q ↦
          rw q
            (here (ap (λ k. lookup k m) ((eq_iff i j).0 q)) (lookup j m) refl (fold_in-loaded ids))
      | inr q ↦ elim (Option-cases (lookup i m)) [
        | inl gone ↦ rw (gone, q) (fold_in-loaded ids o)
        | inr (x, found) ↦
            rw (found, q)
              (ap (fold_in (loaded m ids))
                  (step-other (any (moves mapped) x.nodes) x o (simp (keyed i x found) q))
                ∙ fold_in-loaded ids o)
      ]
    ]
      where
        here :
            lookup i m ≡ lookup j m
            → (l : Option Workflow) → lookup j m ≡ l
            → ((p : Option Workflow)
                → fold_in (loaded m ids) p
                  ≡ (if any (λ i. i == j) ids then settle (lookup j m) p else p))
            → fold_in (with_found (lookup i m) (loaded m ids)) o ≡ settle (lookup j m) o
        here e none g rest = rw (e, g) (rest o ∙ if_same (any (λ i. i == j) ids) (rw g refl))
        here e (some x) g rest =
            rw (e, g)
              (ap (fold_in (loaded m ids))
                  (step-settle (any (moves mapped) x.nodes) x o (keyed j x g) refl)
                ∙ rest (settle (some x) o)
                ∙ if_same (any (λ i. i == j) ids) (rw g (settle-settle (some x) o)))

  update_each-Ensures :
      (xs : List Workflow) (w : World)
      → w.now ≡ now
      → Quiet w.faults
      → Ensures
          (λ _ u. lookup j u.workflows ≡ fold_in xs (lookup j w.workflows))
          Never
          (update_each mapped xs w)
  unfolding update_each
  update_each-Ensures [] w n f = returns refl
  update_each-Ensures (x ∷ xs) w n f =
      rw (update_trigger_nodes-moved mapped x.nodes)
        (one_more (any (moves mapped) x.nodes) refl (update_each-Ensures xs))
    where
      y : Workflow
      y = with_nodes (map (moved mapped) x.nodes) x

      one_more :
          (b : Bool)
          → any (moves mapped) x.nodes ≡ b
          → ((v : World)
              → v.now ≡ now
              → Quiet v.faults
              → Ensures
                  (λ _ u. lookup j u.workflows ≡ fold_in xs (lookup j v.workflows))
                  Never
                  (update_each mapped xs v))
          → Ensures
              (λ _ u. lookup j u.workflows ≡ fold_in xs (step b x (lookup j w.workflows)))
              Never
              (save_if b y (update_each mapped xs) w)
      one_more true e rest =
          act-Ensures (save y) (λ _. update_each mapped xs) (save-Acts y w)
            (λ gs k.
              Ensures-weaken
                (λ _ u h.
                  h
                  ∙ ap (fold_in xs) (
                      lookup-write_file x.id j (stamp w.now y) w.workflows
                      ∙ ap (λ v. if x.id == j then some v else lookup j w.workflows)
                          (ap (λ t. stamp t y) n ∙ sym (with_sources-moving x e))))
                (λ _ _ n. n) (rest (record (saved y w) { faults = gs }) n (k f)))
            (λ gs l. absurd (l f))
      one_more false e rest = rest w n f

  settle-map : (o : Option Workflow) → settle o o ≡ Option.map (with_sources mapped now) o
  settle-map none = refl
  settle-map (some x) = elim (Bool-cases (any (moves mapped) x.nodes)) [
    | inl q ↦ simp q refl
    | inr q ↦ simp q (ap some (sym (with_sources-resting x q)))
  ]

  all_settled :
      (m : Dict Workflow)
      → IsKeyed m
      → fold_in (loaded m (keys m)) (lookup j m) ≡ Option.map (with_sources mapped now) (lookup j m)
  all_settled m keyed =
      fold_in-loaded m keyed (keys m) (lookup j m)
      ∙ listed (lookup j m) refl
      ∙ settle-map (lookup j m)
    where
      listed :
          (o : Option Workflow)
          → lookup j m ≡ o
          → (if any (λ i. i == j) (keys m) then settle (lookup j m) (lookup j m) else lookup j m)
            ≡ settle (lookup j m) (lookup j m)
      listed none e = rw e (if_same (any (λ i. i == j) (keys m)) refl)
      listed (some x) e = rw (any-keys j m e) refl

resting : (ns : List WorkflowNode) → any (moves []) ns ≡ false
unfolding moves lookup
resting [] = refl
resting (n ∷ ns) = elim (Bool-cases (is_trigger_node n)) [
  | inl q ↦ simp q (resting ns)
  | inr q ↦ simp q (resting ns)
]

-- If the files of workflows are named after the workflows that they hold and nothing fails, the
-- update returns, and in every file it has given each trigger node that is mapped to another
-- source that source; a workflow without such a node is as it was.
pub update_triggers_with_source_ids-with_sources :
    (mapped : Dict String) (j : String) (w : World)
    → IsKeyed w.workflows
    → Quiet w.faults
    → Ensures
        (λ _ u.
          lookup j u.workflows ≡ Option.map (with_sources mapped w.now) (lookup j w.workflows))
        Never
        (update_triggers_with_source_ids mapped w)
unfolding update_triggers_with_source_ids
update_triggers_with_source_ids-with_sources [] j w keyed f =
    returns (nothing (lookup j w.workflows))
  where
    nothing : (o : Option Workflow) → o ≡ Option.map (with_sources [] w.now) o
    nothing none = refl
    nothing (some x) = ap some (sym (with_sources-resting [] w.now j x (resting x.nodes)))
update_triggers_with_source_ids-with_sources (p ∷ mapped) j w keyed f =
    act-Ensures get_all (update_each (p ∷ mapped)) (get_all-Reads w)
      (λ gs k.
        Ensures-weaken (λ _ u h. h ∙ all_settled (p ∷ mapped) w.now j w.workflows keyed)
          (λ _ _ n. n)
          (update_each-Ensures (p ∷ mapped) w.now j (loaded w.workflows (keys w.workflows))
            (record w { faults = gs }) refl (k f)))
      (λ gs l. absurd (l f))
