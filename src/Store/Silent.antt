-- ===== src/Store/Silent.antt =====
-- The repositories publish nothing: each of their operations leaves the event bus alone.
use operion.Base.{refl, String, List, [], ◌∷◌, Option, none, Bool-cases, keys, inl, inr}
use operion.Models.Execution.{ExecutionContext, NodeInputState}
use operion.Models.Event.{Error, io_failed, context_not_found, state_not_found}
use operion.Store.{World, M, ◌>>=◌, io, check, gets, require, attempt, pure}
use operion.Store.Keeps.{
  Keeps, Keeps-pure, Keeps-gets, Keeps-require, Keeps-attempt, Keeps-check, Keeps-modify, Keeps-io,
  Keeps-bind,
}
use operion.Store.Workflows.{get_by_id, get_each, get_all}
use operion.Store.Contexts.{save_execution_context, get_execution_context, update_execution_context}
use operion.Store.Inputs.{
  save_input_state, load_input_state, delete_input_state, find_pending_node_execution, is_inside,
  read_state, consider, scan_states,
}
use operion.Store.Nodes.{get_workflow, get_node_by_workflow, get_connections_by_source_node}

abbrev pub IsSilent : {A : Type 0} → M A → Type 0
IsSilent m = Keeps (λ w. w.bus) m

pub IsSilent-bind :
    {A B : Type 0} (m : M A) (f : A → M B)
    → IsSilent m
    → ((a : A) → IsSilent (f a))
    → IsSilent (m >>= f)
IsSilent-bind = Keeps-bind (λ w. w.bus)

pub IsSilent-attempt : {A : Type 0} (m : M A) → IsSilent m → IsSilent (attempt m)
IsSilent-attempt = Keeps-attempt (λ w. w.bus)

pub IsSilent-pure : {A : Type 0} (a : A) → IsSilent (pure a)
IsSilent-pure = Keeps-pure (λ w. w.bus)

pub IsSilent-gets : {A : Type 0} (f : World → A) → IsSilent (gets f)
IsSilent-gets = Keeps-gets (λ w. w.bus)

pub IsSilent-require : {A : Type 0} (e : Error) (o : Option A) → IsSilent (require e o)
IsSilent-require = Keeps-require (λ w. w.bus)

pub IsSilent-check : (o : Option Error) → IsSilent (check o)
IsSilent-check = Keeps-check (λ w. w.bus)

pub IsSilent-io : (e : Error) → IsSilent (io e)
IsSilent-io e = Keeps-io (λ w. w.bus) e (λ w gs. refl)

pub get_by_id-IsSilent : (id : String) → IsSilent (get_by_id id)
unfolding get_by_id
get_by_id-IsSilent id =
    IsSilent-bind (io io_failed) _ (IsSilent-io io_failed) (λ _. IsSilent-gets _)

pub get_each-IsSilent : (ids : List String) → IsSilent (get_each ids)
unfolding get_each
get_each-IsSilent [] = IsSilent-pure []
get_each-IsSilent (id ∷ ids) =
    IsSilent-bind (get_by_id id) _ (get_by_id-IsSilent id)
      (λ x. IsSilent-bind (get_each ids) _ (get_each-IsSilent ids) (λ xs. IsSilent-pure _))

pub get_all-IsSilent : IsSilent get_all
unfolding get_all
get_all-IsSilent =
    IsSilent-bind (io io_failed) _ (IsSilent-io io_failed)
      (λ _. IsSilent-bind (gets _) _ (IsSilent-gets _) (λ ids. get_each-IsSilent ids))

pub get_workflow-IsSilent : (id : String) → IsSilent (get_workflow id)
unfolding get_workflow
get_workflow-IsSilent id =
    IsSilent-bind (get_by_id id) _ (get_by_id-IsSilent id) (λ found. IsSilent-require _ found)

pub get_node_by_workflow-IsSilent :
    (workflow node : String) → IsSilent (get_node_by_workflow workflow node)
unfolding get_node_by_workflow
get_node_by_workflow-IsSilent workflow node =
    IsSilent-bind (get_workflow workflow) _ (get_workflow-IsSilent workflow)
      (λ x. IsSilent-require _ _)

pub get_connections_by_source_node-IsSilent :
    (workflow node : String) → IsSilent (get_connections_by_source_node workflow node)
unfolding get_connections_by_source_node
get_connections_by_source_node-IsSilent workflow node =
    IsSilent-bind (get_workflow workflow) _ (get_workflow-IsSilent workflow) (λ x. IsSilent-pure _)

pub get_execution_context-IsSilent : (id : String) → IsSilent (get_execution_context id)
unfolding get_execution_context
get_execution_context-IsSilent id = IsSilent-bind (check _) _ (IsSilent-check _) (λ _.
    IsSilent-bind (io io_failed) _ (IsSilent-io io_failed) (λ _.
      IsSilent-bind (gets _) _ (IsSilent-gets _)
        (λ found. IsSilent-require (context_not_found id) found)))

pub save_execution_context-IsSilent : (c : ExecutionContext) → IsSilent (save_execution_context c)
unfolding save_execution_context
save_execution_context-IsSilent c =
    IsSilent-bind (io io_failed) _ (IsSilent-io io_failed)
      (λ _. Keeps-modify (λ w. w.bus) _ (λ w. refl))

pub update_execution_context-IsSilent :
    (c : ExecutionContext) → IsSilent (update_execution_context c)
unfolding update_execution_context
update_execution_context-IsSilent c =
    IsSilent-bind (get_execution_context c.id) _ (get_execution_context-IsSilent c.id)
      (λ _. save_execution_context-IsSilent c)

pub save_input_state-IsSilent : (s : NodeInputState) → IsSilent (save_input_state s)
unfolding save_input_state
save_input_state-IsSilent s = IsSilent-bind (check _) _ (IsSilent-check _) (λ _.
    IsSilent-bind (io io_failed) _ (IsSilent-io io_failed)
      (λ _. Keeps-modify (λ w. w.bus) _ (λ w. refl)))

pub load_input_state-IsSilent : (id : String) → IsSilent (load_input_state id)
unfolding load_input_state
load_input_state-IsSilent id = IsSilent-bind (check _) _ (IsSilent-check _) (λ _.
    IsSilent-bind (io io_failed) _ (IsSilent-io io_failed) (λ _.
      IsSilent-bind (gets _) _ (IsSilent-gets _)
        (λ found. IsSilent-require (state_not_found id) found)))

pub delete_input_state-IsSilent : (id : String) → IsSilent (delete_input_state id)
unfolding delete_input_state
delete_input_state-IsSilent id = IsSilent-bind (check _) _ (IsSilent-check _) (λ _.
    IsSilent-bind (io io_failed) _ (IsSilent-io io_failed)
      (λ _. Keeps-modify (λ w. w.bus) _ (λ w. refl)))

read_state-IsSilent : (id : String) → IsSilent (read_state id)
unfolding read_state
read_state-IsSilent id =
    IsSilent-bind (io io_failed) _ (IsSilent-io io_failed) (λ _. IsSilent-gets _)

scan_states-IsSilent :
    (root node execution : String) (oldest : Option NodeInputState) (ids : List String)
    → IsSilent (scan_states root node execution oldest ids)
unfolding scan_states
scan_states-IsSilent root node execution oldest [] = IsSilent-pure oldest
scan_states-IsSilent root node execution oldest (id ∷ ids) = elim (Bool-cases (is_inside root id)) [
  | inl here ↦
      rw (here, scan_states)
        (IsSilent-bind (attempt (read_state id)) _
          (IsSilent-attempt (read_state id) (read_state-IsSilent id))
          (λ state.
            scan_states-IsSilent root node execution (consider node execution oldest state) ids))
  | inr out ↦ rw (out, scan_states) (scan_states-IsSilent root node execution oldest ids)
]

pub find_pending_node_execution-IsSilent :
    (node execution : String) → IsSilent (find_pending_node_execution node execution)
unfolding find_pending_node_execution
find_pending_node_execution-IsSilent node execution =
    IsSilent-bind (io io_failed) _ (IsSilent-io io_failed) (λ _.
      IsSilent-bind (gets _) _ (IsSilent-gets _) (λ root.
        IsSilent-bind (gets (λ w. keys w.input_states)) _ (IsSilent-gets _)
          (λ ids. scan_states-IsSilent root node execution none ids)))
