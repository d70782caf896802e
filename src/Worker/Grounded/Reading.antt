-- ===== src/Worker/Grounded/Reading.antt =====
-- The worker's operations on workflows and input states keep any property of the world that says
-- nothing of coming faults, identifiers and input states.
use Prim.Native.String
use Prim.Native.String.{slice}
use operion.Base.{ℕ, ◌+◌, String, List, [], ◌∷◌, Bool, true, false, Option, none, keys, Dict}
use operion.Models.Execution.{NodeResult, InputRequirements, NodeInputState}
use operion.Models.Event.{io_failed, state_not_found, context_not_found}
use operion.Store.{World, M, gets, modify, check, attempt, io}
use operion.Store.Preserves.{
  Preserves, Preserves-pure, Preserves-gets, Preserves-require, Preserves-attempt, Preserves-check,
  Preserves-modify, Preserves-io, Preserves-bind,
}
use operion.Store.Workflows.{get_by_id}
use operion.Store.Workflows.Reading.{get_by_id-Preserves}
use operion.Store.Contexts.{get_execution_context}
use operion.Store.Inputs.{
  save_input_state, load_input_state, delete_input_state, find_pending_node_execution, is_inside,
  read_state, consider, scan_states,
}
use operion.Store.Nodes.{get_workflow, get_node_by_workflow, get_connections_by_source_node}
use operion.Worker.Coordinator.{add_input, generate_node_execution_id}

module _ (P : World → Type 0)
    (calm : (w : World) (gs : List Bool) → P w → P (record w { faults = gs }))
    (states : (w : World) (m : Dict NodeInputState) → P w → P (record w { input_states = m }))
    (ids : (w : World) (n : ℕ) → P w → P (record w { ids = n })) where
  get_workflow-Preserves : (id : String) → Preserves P (get_workflow id)
  unfolding get_workflow
  get_workflow-Preserves id =
      Preserves-bind P (get_by_id id) _ (get_by_id-Preserves P calm id)
        (λ found. Preserves-require P _ found)

  pub get_node_by_workflow-Preserves :
      (workflow node : String) → Preserves P (get_node_by_workflow workflow node)
  unfolding get_node_by_workflow
  get_node_by_workflow-Preserves workflow node =
      Preserves-bind P (get_workflow workflow) _ (get_workflow-Preserves workflow)
        (λ x. Preserves-require P _ _)

  pub get_connections-Preserves :
      (workflow node : String) → Preserves P (get_connections_by_source_node workflow node)
  unfolding get_connections_by_source_node
  get_connections-Preserves workflow node =
      Preserves-bind P (get_workflow workflow) _ (get_workflow-Preserves workflow)
        (λ x. Preserves-pure P _)

  pub get_execution_context-Preserves : (id : String) → Preserves P (get_execution_context id)
  unfolding get_execution_context
  get_execution_context-Preserves id = Preserves-bind P (check _) _ (Preserves-check P _) (λ _.
      Preserves-bind P (io io_failed) _ (Preserves-io P io_failed calm) (λ _.
        Preserves-bind P (gets _) _ (Preserves-gets P _)
          (λ found. Preserves-require P (context_not_found id) found)))

  save_input_state-Preserves : (s : NodeInputState) → Preserves P (save_input_state s)
  unfolding save_input_state
  save_input_state-Preserves s = Preserves-bind P (check _) _ (Preserves-check P _) (λ _.
      Preserves-bind P (io io_failed) _ (Preserves-io P io_failed calm)
        (λ _. Preserves-modify P _ (λ w p. states w _ p)))

  load_input_state-Preserves : (id : String) → Preserves P (load_input_state id)
  unfolding load_input_state
  load_input_state-Preserves id = Preserves-bind P (check _) _ (Preserves-check P _) (λ _.
      Preserves-bind P (io io_failed) _ (Preserves-io P io_failed calm) (λ _.
        Preserves-bind P (gets _) _ (Preserves-gets P _)
          (λ found. Preserves-require P (state_not_found id) found)))

  pub delete_input_state-Preserves : (id : String) → Preserves P (delete_input_state id)
  unfolding delete_input_state
  delete_input_state-Preserves id = Preserves-bind P (check _) _ (Preserves-check P _) (λ _.
      Preserves-bind P (io io_failed) _ (Preserves-io P io_failed calm)
        (λ _. Preserves-modify P _ (λ w p. states w _ p)))

  read_state-Preserves : (id : String) → Preserves P (read_state id)
  unfolding read_state
  read_state-Preserves id =
      Preserves-bind P (io io_failed) _ (Preserves-io P io_failed calm) (λ _. Preserves-gets P _)

  Preserves-elim :
      {A : Type 0} (b : Bool) (m n : M A)
      → Preserves P m
      → Preserves P n
      → Preserves P (elim b [ true ↦ m | false ↦ n ])
  Preserves-elim true m n h k = h
  Preserves-elim false m n h k = k

  scan_states-Preserves :
      (root node execution : String) (oldest : Option NodeInputState) (is : List String)
      → Preserves P (scan_states root node execution oldest is)
  unfolding scan_states
  scan_states-Preserves root node execution oldest [] = Preserves-pure P oldest
  scan_states-Preserves root node execution oldest (id ∷ is) =
      Preserves-elim (is_inside root id) _ _
        (Preserves-bind P (attempt (read_state id)) _
          (Preserves-attempt P (read_state id) (read_state-Preserves id))
          (λ state.
            scan_states-Preserves root node execution (consider node execution oldest state) is))
        (scan_states-Preserves root node execution oldest is)

  pub find_pending-Preserves :
      (node execution : String) → Preserves P (find_pending_node_execution node execution)
  unfolding find_pending_node_execution
  find_pending-Preserves node execution =
      Preserves-bind P (io io_failed) _ (Preserves-io P io_failed calm) (λ _.
        Preserves-bind P (gets (λ w. w.root)) _ (Preserves-gets P _) (λ root.
          Preserves-bind P (gets (λ w. keys w.input_states)) _ (Preserves-gets P _)
            (λ is. scan_states-Preserves root node execution none is)))

  pub add_input-Preserves :
      (node execution id port : String) (result : NodeResult) (requirements : InputRequirements)
      → Preserves P (add_input node execution id port result requirements)
  unfolding add_input
  add_input-Preserves node execution id port result requirements =
      Preserves-bind P (attempt (load_input_state id)) _
        (Preserves-attempt P (load_input_state id) (load_input_state-Preserves id))
        (λ loaded. Preserves-bind P (gets (λ w. w.now)) _ (Preserves-gets P _) (λ now.
          Preserves-bind P (save_input_state _) _ (save_input_state-Preserves _)
            (λ _. Preserves-pure P _)))

  pub generate-Preserves : (uuid : ℕ → String) → Preserves P (generate_node_execution_id uuid)
  unfolding generate_node_execution_id
  generate-Preserves uuid = Preserves-bind P (gets (λ w. w.ids)) _ (Preserves-gets P _) (λ n.
      Preserves-bind P (modify (λ w. record w { ids = w.ids + 1 })) _
        (Preserves-modify P _ (λ w p. ids w (w.ids + 1) p))
        (λ _. Preserves-pure P (String.◌++◌ "node-exec-" (slice (uuid n) 0 8))))
