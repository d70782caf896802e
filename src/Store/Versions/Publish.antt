-- ===== src/Store/Versions/Publish.antt =====
-- What publishing a workflow does to every file, and that a group has one published version.
use operion.Base.{
  ℕ, String, true, false, ◌==◌, eq_iff, eq_refl, ◌≡◌, ◌↔◌, ◌∙◌, refl, sym, ◌⊎◌, inl, inr, arith,
  Bool-cases, if◌then◌else◌, ap, keys, ◌↔◌, lookup, Option, some,
}
use mathlib.Core.Option
use operion.Models.Workflow.{Workflow, status_published}
use operion.Models.Event.{Error}
use operion.Store.{World, ◌>>=◌, ◌>>◌, done, fail, gets}
use operion.Store.Ensures.{
  Quiet, Ensures, Ensures-weaken, act-Ensures, Acts-Ensures, >>=-Ensures, of_done, of_fail,
}
use operion.Store.Workflows.{get_by_id, get_all, stamp, save}
use operion.Store.Workflows.Effects.{get_by_id-Reads, get_all-Reads, loaded, save-Acts}
use operion.Store.Versions.{in_group, unpublished, unpublish_group, published, publish_workflow}
use operion.Store.Versions.Retire.{
  IsKeyed, retired, lookup-write_file, Settled, unpublish_group-Ensures, loaded-All,
  Progress-passed,
}

-- The file `k` after `id`, whose workflow is `x`, has been published.
unfoldable pub published_at : String → Workflow → ℕ → String → Option Workflow → Option Workflow
published_at id x now k before =
    if id == k
    then some (stamp now (published now x))
    else Option.map (retired x.workflow_group_id now) before

module _ (id : String) (x : Workflow) (w : World) (keyed : IsKeyed w.workflows)
    (found : lookup id w.workflows ≡ some x) (k : String) where
  -- How the file `k` stands after the workflow has been published, and where publishing broke off.
  abbrev Published : Workflow → World → Type 0
  Published _ w' = lookup k w'.workflows ≡ published_at id x w.now k (lookup k w.workflows)

  abbrev Broken : Error → World → Type 0
  Broken _ w' =
      ((lookup k w'.workflows ≡ lookup k w.workflows)
        ⊎ (lookup k w'.workflows
            ≡ Option.map (retired x.workflow_group_id w.now) (lookup k w.workflows)))
      × (¬ Quiet w.faults)

  save-Published :
      (v : World)
      → (v.now ≡ w.now) × Settled w.workflows x.workflow_group_id w.now k v
      → (Quiet w.faults → Quiet v.faults)
      → Ensures Published Broken (save (published v.now x) v)
  unfolding published_at published
  save-Published v p kept =
      Acts-Ensures (save-Acts (published v.now x) v)
        (λ gs _. ground (
          arith,
          lookup-write_file x.id k (stamp v.now (published v.now x)) v.workflows,
          keyed id x found,
        ))
        (λ gs n. (inr p.1, λ e. n (kept e)))

  retire-Published :
      (v : World)
      → (v.workflows ≡ w.workflows) × (v.now ≡ w.now)
      → (Quiet w.faults → Quiet v.faults)
      → Ensures Published Broken (
          (unpublish_group x.workflow_group_id (loaded w.workflows (keys w.workflows))
              >> (gets (λ u. u.now) >>= λ now. save (published now x)))
            v)
  retire-Published v (same, n) kept =
      >>=-Ensures (unpublish_group x.workflow_group_id (loaded w.workflows (keys w.workflows))) _ v
        (Ensures-weaken (λ _ _ q. q) (λ _ _ q. (q.0.1, λ e. q.1 (kept e)))
          (unpublish_group-Ensures w.workflows x.workflow_group_id w.now k false
            (loaded w.workflows (keys w.workflows)) v
            (loaded-All w.workflows (keys w.workflows) keyed) (n, inl (ap (lookup k) same))))
        (λ _ u q.
          save-Published u (Progress-passed w.workflows x.workflow_group_id w.now k u keyed q.0)
            (λ e. q.1 (kept e)))

  publish_workflow-Ensures : Ensures Published Broken (publish_workflow id w)
  unfolding publish_workflow
  publish_workflow-Ensures =
      act-Ensures (get_by_id id) _ (get_by_id-Reads id w)
        (λ gs kept. rw found (
          act-Ensures get_all _ (get_all-Reads (record w { faults = gs }))
            (λ hs kept'.
              retire-Published (record w { faults = hs }) (refl, refl) (λ e. kept' (kept e)))
            (λ hs n. (inl refl, λ e. n (kept e)))))
        (λ gs n. (inl refl, n))

-- Publishing a workflow of a folder where each file is named after its workflow: once it has
-- returned, the file of that workflow holds it as published, with the time of publishing that it
-- had or else the present one; each other file whose workflow was a published version of the group
-- holds it as unpublished, and no other file has changed.
pub publish_workflow-lookup :
    (id k : String) (x y : Workflow) (w w' : World)
    → IsKeyed w.workflows
    → lookup id w.workflows ≡ some x
    → publish_workflow id w ≡ done y w'
    → lookup k w'.workflows ≡ published_at id x w.now k (lookup k w.workflows)
publish_workflow-lookup id k x y w w' keyed found e =
    of_done (publish_workflow-Ensures id x w keyed found k) e

-- Publishing a workflow that exists fails only if some operation of the file system is to fail. What
-- was last written in full to each file is then what it was before, or the unpublished version of
-- that if it was a published version of the group; a write that fails may damage its file, so that
-- later reads of it fail.
pub publish_workflow-on_error :
    (id k : String) (x : Workflow) (w w' : World) (error : Error)
    → IsKeyed w.workflows
    → lookup id w.workflows ≡ some x
    → publish_workflow id w ≡ fail error w'
    → ((lookup k w'.workflows ≡ lookup k w.workflows)
        ⊎ (lookup k w'.workflows
            ≡ Option.map (retired x.workflow_group_id w.now) (lookup k w.workflows)))
      × (¬ Quiet w.faults)
publish_workflow-on_error id k x w w' error keyed found e =
    of_fail (publish_workflow-Ensures id x w keyed found k) e

module _ (group : String) where
  unpublished-not_published :
      (now : ℕ) (x : Workflow)
      → in_group group status_published (stamp now (unpublished now x)) ≡ false
  unfolding in_group unpublished stamp
  unpublished-not_published now x = elim (Bool-cases (x.workflow_group_id == group)) [
    | inl q ↦ rw q refl
    | inr q ↦ rw q refl
  ]

  retired-not_published :
      (now : ℕ) (x : Workflow) → in_group group status_published (retired group now x) ≡ false
  unfolding retired
  retired-not_published now x = elim (Bool-cases (in_group group status_published x)) [
    | inl g ↦ rw g (unpublished-not_published now x)
    | inr g ↦ rw g g
  ]

  published-in_group :
      (now : ℕ) (x : Workflow)
      → x.workflow_group_id ≡ group
      → in_group group status_published (stamp now (published now x)) ≡ true
  unfolding in_group published stamp
  published-in_group now x e = rw (e, eq_refl group) refl

  published_at-in_group :
      (id : String) (x z : Workflow) (now : ℕ) (k : String) (before : Option Workflow)
      → x.workflow_group_id ≡ group
      → published_at id x now k before ≡ some z
      → (in_group group status_published z ≡ true) ↔ (k ≡ id)
  unfolding published_at
  published_at-in_group id x z now k before same e = elim (Bool-cases (id == k)) [
    | inl q ↦
        let here = Option.some-injective _ _ (rw q at e) in
        (λ _. sym ((eq_iff id k).0 q), λ _. rw (← here) (published-in_group now x same))
    | inr q ↦
        let (y, _, there) = (Option.map-eq-some_iff _ before).0 (rw (q, same) at e) in
        (
          λ h.
              absurd
                (cc (h, ap (in_group group status_published) there, retired-not_published now y)),
          λ h. absurd (cc (q, (eq_iff id k).1 (sym h))),
        )
  ]

-- After a workflow has been published, its file is the one file of its group whose workflow is
-- published.
pub publish_workflow-one_published :
    (id k : String) (x y z : Workflow) (w w' : World)
    → IsKeyed w.workflows
    → lookup id w.workflows ≡ some x
    → publish_workflow id w ≡ done y w'
    → lookup k w'.workflows ≡ some z
    → (in_group x.workflow_group_id status_published z ≡ true) ↔ (k ≡ id)
publish_workflow-one_published id k x y z w w' keyed found e f =
    published_at-in_group x.workflow_group_id id x z w.now k (lookup k w.workflows) refl
      (sym (publish_workflow-lookup id k x y w w' keyed found e) ∙ f)
