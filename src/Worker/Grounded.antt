-- ===== src/Worker/Grounded.antt =====
-- Activations on the bus whose execution contexts are saved (cmd/operion-worker/worker_manager.go).
pub mod Reading
use operion.Base.{
  ℕ, suc, String, Bool, true, false, ◌==◌, eq_refl, ◌≡◌, refl, if◌then◌else◌, List, [], ◌∷◌, All,
  All-append, Dict, lookup, lookup-insert_by, Option, none, some,
}
use operion.Models.Value.{Value}
use operion.Models.Workflow.{Workflow, TriggerNodeMatch}
use operion.Models.Execution.{ExecutionContext}
use operion.Models.Event.{
  Error, io_failed, publish_failed, Event, activation, completion, NodeActivation, NodeCompletion,
  context_not_found, SourceEvent, validate_source_event, workflow_not_found,
}
use operion.Store.{World, ◌>>=◌, ◌>>◌, gets, modify, require, check, attempt, io}
use operion.Store.Ensures.{Ensures, returns, raises, Ensures-weaken, >>=-Ensures}
use operion.Store.Preserves.{
  Preserves, Preserves-pure, Preserves-gets, Preserves-require, Preserves-attempt, Preserves-check,
  Preserves-modify, Preserves-io, Preserves-bind, Leaves-world_of, world_of,
}
use operion.Store.Workflows.{get_by_id, write_file, lists_before, get_all}
use operion.Store.Workflows.Reading.{get_by_id-Preserves, get_all-Preserves}
use operion.Store.Contexts.{save_execution_context, get_execution_context}
use operion.Store.Path.{validate_id}
use operion.Store.Nodes.{find_trigger_nodes}
use operion.Worker.Manager.{publish, event_key}

abbrev pub has_context : Option ExecutionContext → Bool
has_context none = false
has_context (some c) = true

-- The context of an execution is there.
abbrev pub IsSaved : Dict ExecutionContext → String → Type 0
IsSaved contexts execution = has_context (lookup execution contexts) ≡ true

abbrev pub IsGrounded : Dict ExecutionContext → String × Event → Type 0
IsGrounded contexts (key, activation a) = IsSaved contexts a.execution_id
IsGrounded contexts (key, completion c) = Unit

-- Each activation that has been published is of an execution whose context is there.
abbrev pub Grounded : World → Type 0
Grounded w = All (IsGrounded w.contexts) w.bus

-- The same, and the context of the given execution is there too.
abbrev pub GroundedWith : String → World → Type 0
GroundedWith execution w = Grounded w × IsSaved w.contexts execution

lookup-write_file :
    (k j : String) (c : ExecutionContext) (m : Dict ExecutionContext)
    → lookup j (write_file ".json" k c m) ≡ (if k == j then some c else lookup j m)
unfolding write_file
lookup-write_file k j c m = lookup-insert_by (lists_before ".json") k j c m

write_file-IsSaved :
    (k j : String) (c : ExecutionContext) (m : Dict ExecutionContext)
    → IsSaved m j
    → IsSaved (write_file ".json" k c m) j
write_file-IsSaved k j c m h = rw (lookup-write_file k j c m) (either (k == j))
  where
    either : (b : Bool) → has_context (if b then some c else lookup j m) ≡ true
    either true = refl
    either false = h

write_file-Grounded :
    (k : String) (c : ExecutionContext) (m : Dict ExecutionContext) (bus : List (String × Event))
    → All (IsGrounded m) bus
    → All (IsGrounded (write_file ".json" k c m)) bus
write_file-Grounded k c m [] h = tt
write_file-Grounded k c m ((key, activation a) ∷ bus) (p, h) =
    (write_file-IsSaved k a.execution_id c m p, write_file-Grounded k c m bus h)
write_file-Grounded k c m ((key, completion d) ∷ bus) (p, h) = (tt, write_file-Grounded k c m bus h)

pub save_execution_context-GroundedWith :
    (c : ExecutionContext) (w : World)
    → Grounded w
    → Ensures (λ _ w'. GroundedWith c.id w') (λ _ w'. Grounded w') (save_execution_context c w)
unfolding save_execution_context
save_execution_context-GroundedWith c w h =
    >>=-Ensures (io io_failed) _ w (Preserves-io Grounded io_failed (λ _ _ g. g) w h) (λ _ v g.
      returns (
        write_file-Grounded c.id c v.contexts v.bus g,
        rw (lookup-write_file c.id c.id c v.contexts, eq_refl c.id) refl,
      ))

pub publish-Preserves :
    (execution key : String) (a : NodeActivation)
    → a.execution_id ≡ execution
    → Preserves (GroundedWith execution) (publish key (activation a))
unfolding publish
publish-Preserves execution key a e =
    Preserves-bind (GroundedWith execution) (io publish_failed) _
      (Preserves-io (GroundedWith execution) publish_failed (λ _ _ g. g))
      (λ _. Preserves-modify (GroundedWith execution) _ (λ w g. (
        All-append (IsGrounded w.contexts) w.bus ((key, activation a) ∷ []) g.0 (rw e (g.1), tt),
        g.1,
      )))

pub completion-Preserves :
    (execution key : String) (d : NodeCompletion)
    → Preserves (GroundedWith execution) (publish key (completion d))
unfolding publish
completion-Preserves execution key d =
    Preserves-bind (GroundedWith execution) (io publish_failed) _
      (Preserves-io (GroundedWith execution) publish_failed (λ _ _ g. g))
      (λ _. Preserves-modify (GroundedWith execution) _ (λ w g.
        (All-append (IsGrounded w.contexts) w.bus ((key, completion d) ∷ []) g.0 (tt, tt), g.1)))

pub completion-Grounded :
    (key : String) (d : NodeCompletion) → Preserves Grounded (publish key (completion d))
unfolding publish
completion-Grounded key d =
    Preserves-bind Grounded (io publish_failed) _
      (Preserves-io Grounded publish_failed (λ _ _ g. g))
      (λ _.
        Preserves-modify Grounded _
          (λ w g. All-append (IsGrounded w.contexts) w.bus ((key, completion d) ∷ []) g (tt, tt)))

pub save_execution_context-Preserves :
    (execution : String) (c : ExecutionContext)
    → Preserves (GroundedWith execution) (save_execution_context c)
unfolding save_execution_context
save_execution_context-Preserves execution c =
    Preserves-bind (GroundedWith execution) (io io_failed) _
      (Preserves-io (GroundedWith execution) io_failed (λ _ _ g. g))
      (λ _. Preserves-modify (GroundedWith execution) _ (λ w g. (
        write_file-Grounded c.id c w.contexts w.bus g.0,
        write_file-IsSaved c.id execution c w.contexts g.1,
      )))

require-GroundedWith :
    (e : Error) (id : String) (w : World) (o : Option ExecutionContext)
    → lookup id w.contexts ≡ o
    → Grounded w
    → Ensures (λ _ w'. GroundedWith id w') (λ _ w'. Grounded w') (require e o w)
require-GroundedWith e id w none found g = raises g
require-GroundedWith e id w (some c) found g = returns (g, rw found refl)

-- An execution context that can be read is there.
pub get_execution_context-GroundedWith :
    (id : String) (w : World)
    → Grounded w
    → Ensures (λ _ w'. GroundedWith id w') (λ _ w'. Grounded w') (get_execution_context id w)
unfolding get_execution_context
get_execution_context-GroundedWith id w g =
    >>=-Ensures (check (validate_id id)) _ w (Preserves-check Grounded (validate_id id) w g)
      (λ _ v h.
        >>=-Ensures (io io_failed) _ v (Preserves-io Grounded io_failed (λ _ _ k. k) v h)
          (λ _ u k. require-GroundedWith (context_not_found id) id u (lookup id u.contexts) refl k))
