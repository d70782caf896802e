-- ===== src/Postgres/Saving/Success.antt =====
-- When saving a workflow over PostgreSQL succeeds (pkg/persistence/postgresql/workflow.go, `Save`).
use mathlib.Core.List.{append-nil}
use operion.Base.{ℕ, String, Bool, true, false, ◌==◌, ◌≡◌, refl, sym, ◌∙◌, []}
use operion.Models.Workflow.{Workflow}
use operion.Models.Event.{io_failed}
use operion.Store.{World, done, ◌>>◌, pure, io}
use operion.Store.Ensures.{Returns}
use operion.Store.Workflows.{stamp}
use operion.Activator.{generate_id}
use operion.Postgres.{with_database, begin, or_rollback, or_abandon, commit}
use operion.Postgres.Saving.{
  upsert_workflow, delete_connections_of, delete_nodes_of, save_workflow_nodes,
  save_workflow_connections, grouped, write, id_or_new, save,
}
use operion.Postgres.Saving.Rows.{cleared, filled}
use operion.Postgres.Undisturbed.{
  exec_unless-done, >>=-done, >>-done, or_rollback-done, or_abandon-done, io-done, begin-done,
}
use operion.Postgres.Saving.Inserts.{
  Fresh, FreshJoins, save_workflow_nodes-done, save_workflow_connections-done,
}

-- A workflow that the tables take.
abbrev pub Storable : Workflow → Type 0
Storable x = Fresh [] x.nodes × FreshJoins [] x.connections

clear-done :
    (x : Workflow) (w : World)
    → w.faults ≡ []
    → (upsert_workflow x >> (delete_connections_of x.id >> delete_nodes_of x.id)) w
      ≡ done tt (with_database (cleared x w.database) w)
unfolding upsert_workflow delete_connections_of delete_nodes_of cleared
clear-done x w e =
    >>-done (upsert_workflow x) _ w _ (exec_unless-done _ _ w e refl)
    ∙ >>-done (delete_connections_of x.id) (delete_nodes_of x.id) _ _
        (exec_unless-done _ _ _ e refl)
    ∙ exec_unless-done _ _ _ e refl

fill-done :
    (x : Workflow) (w : World)
    → w.faults ≡ []
    → Storable x
    → (save_workflow_nodes x.id x.nodes >> save_workflow_connections x.id x.connections)
        (with_database (cleared x w.database) w)
      ≡ done tt (with_database (filled x w.now (cleared x w.database)) w)
unfolding cleared filled
fill-done x w e (p, q) =
    >>-done (save_workflow_nodes x.id x.nodes) (save_workflow_connections x.id x.connections) _ _
      (save_workflow_nodes-done x.id w.database.nodes [] x.nodes _ e (sym (append-nil _)) p)
    ∙ save_workflow_connections-done x.id w.database.connections [] x.connections _ e
        (sym (append-nil _)) q

write-done :
    (x : Workflow) (w : World)
    → w.faults ≡ []
    → Storable x
    → write x w ≡ done x (with_database (filled x w.now (cleared x w.database)) w)
unfolding write commit
write-done x w e s =
    >>=-done begin _ w w w.database (begin-done w e)
    ∙ >>-done (or_rollback w.database _) _ w _
        (or_rollback-done w.database _ w _ tt (clear-done x w e))
    ∙ >>-done (or_abandon w.database _) _ _ _
        (or_abandon-done w.database _ _ _ tt (fill-done x w e s))
    ∙ >>-done (or_rollback w.database (io io_failed)) (pure x) _ _
        (or_rollback-done w.database (io io_failed) _ _ tt (io-done io_failed _ e))

id_or_new-Returns :
    (uuid : ℕ → String) (b : Bool) (id : String) (w : World)
    → w.faults ≡ []
    → (i : String) × (v : World) × (id_or_new uuid b id w ≡ done i v) × (v.faults ≡ [])
unfolding id_or_new generate_id
id_or_new-Returns uuid true id w e =
    (_, _, >>-done (io io_failed) (generate_id uuid) w w (io-done io_failed w e), e)
id_or_new-Returns uuid false id w e = (id, w, refl, e)

-- If nothing fails, a workflow that the tables take is saved.
pub save-Returns :
    (uuid : ℕ → String) (x : Workflow) (w : World)
    → w.faults ≡ []
    → Storable x
    → Returns (save uuid x w)
unfolding save grouped stamp
save-Returns uuid x w e s =
    let (i, v, p, q) = id_or_new-Returns uuid (x.id == "") x.id w e in
    (_, _, >>=-done (id_or_new uuid (x.id == "") x.id) _ w v i p ∙ write-done _ v q s)
