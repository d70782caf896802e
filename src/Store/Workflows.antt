-- ===== src/Store/Workflows.antt =====
-- The workflow repository over files: reading, saving and deleting
-- (pkg/persistence/file/workflow.go).
--
-- The path of a file is the folder's, joined with the identifier and `.json`: an identifier is taken
-- to have no slash, so that the file is one of the folder, under that name.
pub mod Effects
pub mod Reading
use Prim.Native.String
use Prim.Native.String.{compare}
use operion.Base.{
  ℕ, String, Bool, true, false, eqb, if◌then◌else◌, List, [], ◌∷◌, Dict, lookup, insert_by, delete,
  keys, Option, none, some, Ordering,
}
use operion.Models.Workflow.{Workflow}
use operion.Models.Event.{io_failed}
use operion.Store.{M, ◌>>=◌, ◌>>◌, pure, gets, modify, io}

-- A folder is listed in the order of its files' names.
unfoldable pub lists_before : String → String → String → Bool
lists_before suffix k j = elim (compare (String.◌++◌ k suffix) (String.◌++◌ j suffix)) [
  | Ordering.lt ↦ true
  | _ ↦ false
]

unfoldable pub write_file {ℓ} : {V : Type ℓ} → String → String → V → Dict V → Dict V
write_file suffix = insert_by (lists_before suffix)

-- `GetByID`: `none` is the result `nil, nil` for a file that does not exist.
unfoldable pub get_by_id : String → M (Option Workflow)
get_by_id id = do io io_failed; gets (λ w. lookup id w.workflows)

-- A listed file is there when it is read: no other process deletes it in between.
abbrev pub with_found : Option Workflow → List Workflow → List Workflow
with_found none ws = ws
with_found (some x) ws = x ∷ ws

unfoldable pub get_each : List String → M (List Workflow)
get_each [] = pure []
get_each (id ∷ ids) = do x ← get_by_id id; xs ← get_each ids; pure (with_found x xs)

-- `GetAll`.
unfoldable pub get_all : M (List Workflow)
get_all = do io io_failed; ids ← gets (λ w. keys w.workflows); get_each ids

-- The times that `Save` sets in the workflow that it is given.
unfoldable pub stamp : ℕ → Workflow → Workflow
stamp now x = record x {
  created_at = if eqb x.created_at 0 then now else x.created_at;
  updated_at = now;
}

-- `Save`; the result is the workflow as it stands after the call.
unfoldable pub save : Workflow → M Workflow
save x = do
  io io_failed
  now ← gets (λ w. w.now)
  let y = stamp now x
  modify (λ w. record w { workflows = write_file ".json" y.id y w.workflows })
  pure y

-- `Delete`; a file that does not exist is no error.
unfoldable pub delete_workflow : String → M (Unit {0})
delete_workflow id = do io io_failed; modify (λ w. record w { workflows = delete id w.workflows })
