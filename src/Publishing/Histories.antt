-- ===== src/Publishing/Histories.antt =====
-- The folder of workflows under any sequence of operations of its repositories.
use operion.Base.{ℕ, String, false, ◌≡◌, All, List, [], ◌∷◌}
use operion.Store.Path.{contains}
use operion.Models.Workflow.{Workflow, WorkflowNode, Connection}
use operion.Store.{World, M, ◌>>=◌, require}
use operion.Store.Preserves.{Leaves-world_of, world_of, Preserves-require}
use operion.Store.Workflows.{get_by_id}
use operion.Store.Versions.{create_draft_from_published}
use operion.Store.Versions.Retire.{IsKeyed}
use operion.Store.Nodes.{
  get_workflow, save_node, delete_node, save_connection, delete_connection, remove_by_id, node_id,
  connection_id,
}
use operion.Publishing.{publish, create, update}
use operion.Publishing
use operion.Publishing.Keyed.{
  Keyed, KeepsKeyed, KeepsKeyed-bind, get_by_id-KeepsKeyed, save-KeepsKeyed, create-KeepsKeyed,
  update-KeepsKeyed, removal-KeepsKeyed, publish-KeepsKeyed, create_draft_from_published-KeepsKeyed,
}

-- The operations that change the folder.
pub data Operation : Type 0 where
  creates : Workflow → Operation
  updates : String → Workflow → Operation
  deletes : String → Operation
  publishes : String → Operation
  drafts : String → Operation
  saves_node : String → WorkflowNode → Operation
  deletes_node : String → String → Operation
  saves_connection : String → Connection → Operation
  deletes_connection : String → String → Operation

-- The workflow or the group that an operation is given; a new workflow gets its identifier.
abbrev pub subject : Operation → String
subject (creates x) = ""
subject (updates id x) = id
subject (deletes id) = id
subject (publishes id) = id
subject (drafts group) = group
subject (saves_node id n) = id
subject (deletes_node id n) = id
subject (saves_connection id c) = id
subject (deletes_connection id c) = id

-- Joining such an identifier to the path of a folder names a file of the folder.
abbrev pub IsName : String → Type 0
IsName id = contains id "/" ≡ false

-- The world after an operation, whether it has failed or not.
unfoldable pub perform : (ℕ → String) → Operation → World → World
perform uuid (creates x) w = world_of (create uuid x w)
perform uuid (updates id x) w = world_of (update id x w)
perform uuid (deletes id) w = world_of (Publishing.delete id w)
perform uuid (publishes id) w = world_of (publish id w)
perform uuid (drafts group) w = world_of (create_draft_from_published group w)
perform uuid (saves_node id n) w = world_of (save_node id n w)
perform uuid (deletes_node id n) w = world_of (delete_node id n w)
perform uuid (saves_connection id c) w = world_of (save_connection id c w)
perform uuid (deletes_connection id c) w = world_of (delete_connection id c w)

unfoldable pub perform_all : (ℕ → String) → List Operation → World → World
perform_all uuid [] w = w
perform_all uuid (o ∷ os) w = perform_all uuid os (perform uuid o w)

get_workflow-KeepsKeyed :
    {A : Type 0} (id : String) (f : Workflow → M A)
    → ((x : Workflow) → KeepsKeyed (f x))
    → KeepsKeyed (get_workflow id >>= f)
unfolding get_workflow
get_workflow-KeepsKeyed id f h =
    KeepsKeyed-bind (get_workflow id) f
      (KeepsKeyed-bind (get_by_id id) _ (get_by_id-KeepsKeyed id)
        (λ found. Preserves-require Keyed _ found))
      h

save_node-KeepsKeyed : (id : String) (n : WorkflowNode) → KeepsKeyed (save_node id n)
unfolding save_node
save_node-KeepsKeyed id n = get_workflow-KeepsKeyed id _ (λ x. save-KeepsKeyed _)

delete_node-KeepsKeyed : (id n : String) → KeepsKeyed (delete_node id n)
unfolding delete_node
delete_node-KeepsKeyed id n = get_workflow-KeepsKeyed id _ (λ x.
    KeepsKeyed-bind (require _ (remove_by_id node_id n x.nodes)) _ (Preserves-require Keyed _ _)
      (λ rest. save-KeepsKeyed _))

save_connection-KeepsKeyed : (id : String) (c : Connection) → KeepsKeyed (save_connection id c)
unfolding save_connection
save_connection-KeepsKeyed id c = get_workflow-KeepsKeyed id _ (λ x. save-KeepsKeyed _)

delete_connection-KeepsKeyed : (id c : String) → KeepsKeyed (delete_connection id c)
unfolding delete_connection
delete_connection-KeepsKeyed id c = get_workflow-KeepsKeyed id _ (λ x.
    KeepsKeyed-bind (require _ (remove_by_id connection_id c x.connections)) _
      (Preserves-require Keyed _ _) (λ rest. save-KeepsKeyed _))

perform-Keyed : (uuid : ℕ → String) (o : Operation) (w : World) → Keyed w → Keyed (perform uuid o w)
unfolding perform
perform-Keyed uuid (creates x) w h = Leaves-world_of Keyed _ (create-KeepsKeyed uuid x w h)
perform-Keyed uuid (updates id x) w h = Leaves-world_of Keyed _ (update-KeepsKeyed id x w h)
perform-Keyed uuid (deletes id) w h = Leaves-world_of Keyed _ (removal-KeepsKeyed id w h)
perform-Keyed uuid (publishes id) w h = Leaves-world_of Keyed _ (publish-KeepsKeyed id w h)
perform-Keyed uuid (drafts group) w h =
    Leaves-world_of Keyed _ (create_draft_from_published-KeepsKeyed group w h)
perform-Keyed uuid (saves_node id n) w h = Leaves-world_of Keyed _ (save_node-KeepsKeyed id n w h)
perform-Keyed uuid (deletes_node id n) w h =
    Leaves-world_of Keyed _ (delete_node-KeepsKeyed id n w h)
perform-Keyed uuid (saves_connection id c) w h =
    Leaves-world_of Keyed _ (save_connection-KeepsKeyed id c w h)
perform-Keyed uuid (deletes_connection id c) w h =
    Leaves-world_of Keyed _ (delete_connection-KeepsKeyed id c w h)

-- If each file of the folder is named after the workflow that it holds, this is so after any
-- sequence of operations on workflows, their nodes and their connections, failed ones included, if
-- the identifiers that the operations are given or generate have no slash.
pub perform_all-IsKeyed :
    (uuid : ℕ → String) (os : List Operation) (w : World)
    → ((n : ℕ) → IsName (uuid n))
    → All (λ o. IsName (subject o)) os
    → IsKeyed w.workflows
    → IsKeyed (perform_all uuid os w).workflows
unfolding perform_all
perform_all-IsKeyed uuid [] w u n h = h
perform_all-IsKeyed uuid (o ∷ os) w u (n, ns) h =
    perform_all-IsKeyed uuid os (perform uuid o w) u ns (perform-Keyed uuid o w h)
