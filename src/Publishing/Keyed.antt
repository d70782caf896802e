-- ===== src/Publishing/Keyed.antt =====
-- Each file of the folder of workflows is named after the workflow that it holds, whatever
-- operations run against the folder.
use operion.Base.{
  ℕ, suc, String, Bool, true, false, eq_iff, arith, List, [], ◌∷◌, Dict, lookup-delete, delete,
  Option, none, some,
}
use operion.Models.Workflow.{Workflow, status_published}
use operion.Models.Event.{Error, io_failed, no_published_workflow}
use operion.Store.{World, M, ◌>>=◌, pure, gets, modify, require, check, io}
use operion.Store.Preserves.{
  Preserves, Preserves-pure, Preserves-gets, Preserves-require, Preserves-check, Preserves-modify,
  Preserves-io, Preserves-bind,
}
use operion.Store.Workflows.Reading.{get_by_id-Preserves, get_all-Preserves}
use operion.Store.Workflows.{get_by_id, get_all, stamp, save, write_file, delete_workflow}
use operion.Store.Versions.{
  in_group, get_draft_workflow, get_published_workflow, unpublish_group, unpublished, published,
  draft_copy, publish_workflow, copy_published, draft_or_copy, create_draft_from_published,
}
use operion.Store.Versions.Retire.{IsKeyed, lookup-write_file}
use operion.Publishing.{publish, create, created, update, updated, validate_for_publishing}
use operion.Publishing

abbrev pub Keyed : World → Type 0
Keyed w = IsKeyed w.workflows

abbrev pub KeepsKeyed : {A : Type 0} → M A → Type 0
KeepsKeyed m = Preserves Keyed m

pub KeepsKeyed-bind :
    {A B : Type 0} (m : M A) (f : A → M B)
    → KeepsKeyed m
    → ((a : A) → KeepsKeyed (f a))
    → KeepsKeyed (m >>= f)
KeepsKeyed-bind = Preserves-bind Keyed

KeepsKeyed-gets : {A : Type 0} (f : World → A) → KeepsKeyed (gets f)
KeepsKeyed-gets = Preserves-gets Keyed

KeepsKeyed-now :
    {A : Type 0} {f : ℕ → M A}
    → ((now : ℕ) → KeepsKeyed (f now))
    → KeepsKeyed (gets (λ w. w.now) >>= f)
KeepsKeyed-now {f = f} h = KeepsKeyed-bind (gets (λ w. w.now)) f (KeepsKeyed-gets (λ w. w.now)) h

KeepsKeyed-io : (e : Error) → KeepsKeyed (io e)
KeepsKeyed-io e = Preserves-io Keyed e (λ w gs h. h)

write_file-IsKeyed :
    (x : Workflow) (m : Dict Workflow) → IsKeyed m → IsKeyed (write_file ".json" x.id x m)
write_file-IsKeyed x m h k y e =
    ground (arith, rw (lookup-write_file x.id k x m) at e, eq_iff x.id k, h k y)

delete-IsKeyed : (id : String) (m : Dict Workflow) → IsKeyed m → IsKeyed (delete id m)
delete-IsKeyed id m h k y e = ground (arith, rw (lookup-delete id k m) at e, h k y)

pub get_by_id-KeepsKeyed : (id : String) → KeepsKeyed (get_by_id id)
get_by_id-KeepsKeyed = get_by_id-Preserves Keyed (λ w gs h. h)

get_all-KeepsKeyed : KeepsKeyed get_all
get_all-KeepsKeyed = get_all-Preserves Keyed (λ w gs h. h)

pub save-KeepsKeyed : (x : Workflow) → KeepsKeyed (save x)
unfolding save
save-KeepsKeyed x = KeepsKeyed-bind (io io_failed) _ (KeepsKeyed-io io_failed) (λ _.
    KeepsKeyed-now (λ now.
      KeepsKeyed-bind
        (modify (λ w. record w {
          workflows = write_file ".json" (stamp now x).id (stamp now x) w.workflows;
        }))
        (λ _. pure (stamp now x))
        (Preserves-modify Keyed _ (λ w h. write_file-IsKeyed (stamp now x) w.workflows h))
        (λ _. Preserves-pure Keyed (stamp now x))))

delete_workflow-KeepsKeyed : (id : String) → KeepsKeyed (delete_workflow id)
unfolding delete_workflow
delete_workflow-KeepsKeyed id =
    KeepsKeyed-bind (io io_failed) _ (KeepsKeyed-io io_failed)
      (λ _. Preserves-modify Keyed _ (λ w h. delete-IsKeyed id w.workflows h))

-- Reading a workflow that must exist, and then `f`.
KeepsKeyed-found :
    {A : Type 0} (e : Error) (id : String) {f : Workflow → M A}
    → ((x : Workflow) → KeepsKeyed (f x))
    → KeepsKeyed (get_by_id id >>= λ found. require e found >>= f)
KeepsKeyed-found e id {f = f} h =
    KeepsKeyed-bind (get_by_id id) _ (get_by_id-KeepsKeyed id)
      (λ found. KeepsKeyed-bind (require e found) f (Preserves-require Keyed e found) h)

KeepsKeyed-elim :
    {A : Type 0} (b : Bool) (m n : M A)
    → KeepsKeyed m
    → KeepsKeyed n
    → KeepsKeyed (elim b [ true ↦ m | false ↦ n ])
KeepsKeyed-elim true m n h k = h
KeepsKeyed-elim false m n h k = k

unpublish_group-KeepsKeyed :
    (group : String) (xs : List Workflow) → KeepsKeyed (unpublish_group group xs)
unfolding unpublish_group
unpublish_group-KeepsKeyed group [] = Preserves-pure Keyed tt
unpublish_group-KeepsKeyed group (x ∷ xs) =
    let rest = unpublish_group-KeepsKeyed group xs in
    KeepsKeyed-elim (in_group group status_published x) _ _
      (KeepsKeyed-now (λ now.
        KeepsKeyed-bind (save (unpublished now x)) (λ _. unpublish_group group xs)
          (save-KeepsKeyed (unpublished now x)) (λ _. rest)))
      rest

publish_workflow-KeepsKeyed : (id : String) → KeepsKeyed (publish_workflow id)
unfolding publish_workflow
publish_workflow-KeepsKeyed id = KeepsKeyed-found _ id (λ x.
    KeepsKeyed-bind get_all _ get_all-KeepsKeyed (λ all.
      KeepsKeyed-bind (unpublish_group x.workflow_group_id all) _
        (unpublish_group-KeepsKeyed x.workflow_group_id all)
        (λ _. KeepsKeyed-now (λ now. save-KeepsKeyed (published now x)))))

copy_published-KeepsKeyed : (group : String) → KeepsKeyed (copy_published group)
unfolding copy_published get_published_workflow
copy_published-KeepsKeyed group =
    KeepsKeyed-bind (get_published_workflow group) _
      (KeepsKeyed-bind get_all _ get_all-KeepsKeyed (λ ws. Preserves-pure Keyed _))
      (λ found.
        KeepsKeyed-bind (require (no_published_workflow group) found) _
          (Preserves-require Keyed _ found)
          (λ x. KeepsKeyed-now (λ now. save-KeepsKeyed (draft_copy group now x))))

draft_or_copy-KeepsKeyed :
    (group : String) (found : Option Workflow) → KeepsKeyed (draft_or_copy group found)
unfolding draft_or_copy
draft_or_copy-KeepsKeyed group none = copy_published-KeepsKeyed group
draft_or_copy-KeepsKeyed group (some x) = Preserves-pure Keyed x

pub create_draft_from_published-KeepsKeyed :
    (group : String) → KeepsKeyed (create_draft_from_published group)
unfolding create_draft_from_published get_draft_workflow
create_draft_from_published-KeepsKeyed group =
    KeepsKeyed-bind (get_draft_workflow group) _
      (KeepsKeyed-bind get_all _ get_all-KeepsKeyed (λ ws. Preserves-pure Keyed _))
      (λ found. draft_or_copy-KeepsKeyed group found)

pub create-KeepsKeyed : (uuid : ℕ → String) (x : Workflow) → KeepsKeyed (create uuid x)
unfolding create
create-KeepsKeyed uuid x = KeepsKeyed-now (λ now.
    KeepsKeyed-bind (gets (λ w. w.ids)) _ (KeepsKeyed-gets _) (λ n.
      KeepsKeyed-bind (modify (λ w. record w { ids = suc w.ids })) _
        (Preserves-modify Keyed _ (λ w h. h)) (λ _. save-KeepsKeyed (created (uuid n) now x))))

pub update-KeepsKeyed : (id : String) (x : Workflow) → KeepsKeyed (update id x)
unfolding update
update-KeepsKeyed id x =
    KeepsKeyed-found _ id
      (λ existing. KeepsKeyed-now (λ now. save-KeepsKeyed (updated id now existing x)))

pub removal-KeepsKeyed : (id : String) → KeepsKeyed (Publishing.delete id)
unfolding Publishing.delete
removal-KeepsKeyed id = KeepsKeyed-found _ id (λ existing. delete_workflow-KeepsKeyed id)

pub publish-KeepsKeyed : (id : String) → KeepsKeyed (publish id)
unfolding publish
publish-KeepsKeyed id = KeepsKeyed-found _ id (λ x.
    KeepsKeyed-bind (check (validate_for_publishing x)) _ (Preserves-check Keyed _) (λ _.
      KeepsKeyed-bind (publish_workflow id) _ (publish_workflow-KeepsKeyed id)
        (λ _. get_by_id-KeepsKeyed id)))
