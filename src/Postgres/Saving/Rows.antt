-- ===== src/Postgres/Saving/Rows.antt =====
-- What saving a workflow makes of the rows (pkg/persistence/postgresql/workflow.go, `Save`).
use mathlib.Core.List.{append_assoc, append-nil}
use operion.Base.{
  ℕ, suc, String, Bool, true, false, not, ◌==◌, ◌≡◌, ◌⊎◌, inl, inr, refl, subst, List, [], ◌∷◌,
  ◌++◌, map, filter, All, Option, none, some,
}
use operion.Models.Port.{parse_port_id}
use operion.Models.Workflow.{Workflow, WorkflowNode, Connection}
use operion.Models.Database.{NodeRow, ConnectionRow, Database}
use operion.Models.Event.{Error, io_failed, invalid_port}
use operion.Store.{World, ◌>>◌, io}
use operion.Store.Ensures.{Ensures, returns, act-Ensures, >>=-Ensures, io-Reads}
use operion.Store.Workflows.{stamp}
use operion.Activator.{generate_id}
use operion.Postgres.{with_database, begin, commit}
use operion.Postgres.Effects.{
  Gives, gave, any_faults, Gives-and, >>=-Gives, io-Gives, exec_unless-Gives, require-Gives,
  rollback-Ensures, abandon-Ensures, begin-Reads,
}
use operion.Postgres.Saving.{
  row_of, put_row, upsert_workflow, delete_connections_of, delete_nodes_of, node_row,
  save_workflow_nodes, connection_row, insert_node, insert_connection, save_workflow_connections,
  grouped, write, id_or_new, save,
}

abbrev pub with_nodes : Database → List NodeRow → World → World
with_nodes d ns w = with_database (record d { nodes = ns }) w

insert_node-Gives :
    (workflow : String) (n : WorkflowNode) (w : World)
    → Gives Unit tt
        (with_nodes w.database (w.database.nodes ++ (node_row workflow w.now n ∷ [])) w)
        (insert_node workflow n w)
unfolding insert_node
insert_node-Gives workflow n w = exec_unless-Gives _ _ w

save_workflow_nodes-Gives :
    (workflow : String) (ns : List WorkflowNode) (w : World)
    → Gives Unit tt
        (with_nodes w.database (w.database.nodes ++ map (node_row workflow w.now) ns) w)
        (save_workflow_nodes workflow ns w)
unfolding save_workflow_nodes
save_workflow_nodes-Gives workflow [] w = rw append-nil (gave w.faults tt)
save_workflow_nodes-Gives workflow (n ∷ ns) w =
    >>=-Gives (insert_node workflow n) (λ _. save_workflow_nodes workflow ns) w
      (insert_node-Gives workflow n w)
      (λ gs _. any_faults gs _ (
        subst
          (λ l.
            Gives Unit tt (record (with_nodes w.database l w) { faults = gs })
              (save_workflow_nodes workflow ns
                (record (with_nodes w.database
                  (w.database.nodes ++ (node_row workflow w.now n ∷ [])) w) { faults = gs })))
          (append_assoc w.database.nodes (node_row workflow w.now n ∷ [])
            (map (node_row workflow w.now) ns))
          (save_workflow_nodes-Gives workflow ns
            (record (with_nodes w.database (w.database.nodes ++ (node_row workflow w.now n ∷ []))
              w) { faults = gs }))))

abbrev pub with_connections : Database → List ConnectionRow → World → World
with_connections d cs w = with_database (record d { connections = cs }) w

abbrev pub parts : Option (String × String) → String × String
parts none = ("", "")
parts (some p) = p

-- The row of a connection whose ports can be parsed.
unfoldable pub parsed_row : String → ℕ → Connection → ConnectionRow
parsed_row workflow now c =
    connection_row workflow now c (parts (parse_port_id c.source_port))
      (parts (parse_port_id c.target_port))

abbrev pub Parses : Connection → Type 0
Parses c =
    ((p : String × String) × (parse_port_id c.source_port ≡ some p))
    × ((p : String × String) × (parse_port_id c.target_port ≡ some p))

insert_connection-Gives :
    (workflow : String) (c : Connection) (source target : String × String) (w : World)
    → parse_port_id c.source_port ≡ some source
    → parse_port_id c.target_port ≡ some target
    → Gives Unit tt
        (with_connections w.database
          (w.database.connections ++ (parsed_row workflow w.now c ∷ []))
          w)
        (insert_connection workflow c source target w)
unfolding insert_connection parsed_row
insert_connection-Gives workflow c source target w e f = rw (e, f) (exec_unless-Gives _ _ w)

save_workflow_connections-Gives :
    (workflow : String) (cs : List Connection) (w : World)
    → Gives
        (All Parses cs)
        tt
        (with_connections w.database
          (w.database.connections ++ map (parsed_row workflow w.now) cs)
          w)
        (save_workflow_connections workflow cs w)
unfolding save_workflow_connections
save_workflow_connections-Gives workflow [] w = rw append-nil (gave w.faults tt)
save_workflow_connections-Gives workflow (c ∷ cs) w =
    require-Gives (invalid_port c.source_port) (parse_port_id c.source_port) _ w (λ source e.
      require-Gives (invalid_port c.target_port) (parse_port_id c.target_port) _ w (λ target f.
        >>=-Gives (insert_connection workflow c source target)
          (λ _. save_workflow_connections workflow cs) w
          (insert_connection-Gives workflow c source target w e f)
          (λ gs _.
            Gives-and _ (λ h. (((source, e), (target, f)), h))
              (rest gs (save_workflow_connections-Gives workflow cs (inserted gs))))))
  where
    inserted : List Bool → World
    inserted gs =
        record (with_connections w.database
          (w.database.connections ++ (parsed_row workflow w.now c ∷ [])) w) { faults = gs }

    rest :
        (gs : List Bool)
        → Gives
            (All Parses cs)
            tt
            (with_connections w.database
              ((w.database.connections ++ (parsed_row workflow w.now c ∷ []))
                ++ map (parsed_row workflow w.now) cs)
              (inserted gs))
            (save_workflow_connections workflow cs (inserted gs))
        → Gives
            (All Parses cs)
            tt
            (with_connections w.database
              (w.database.connections
                ++ (parsed_row workflow w.now c ∷ map (parsed_row workflow w.now) cs))
              w)
            (save_workflow_connections workflow cs (inserted gs))
    rest gs h = any_faults gs _ (
        subst
          (λ l.
            Gives (All Parses cs) tt (record (with_connections w.database l w) { faults = gs })
              (save_workflow_connections workflow cs (inserted gs)))
          (append_assoc w.database.connections (parsed_row workflow w.now c ∷ [])
            (map (parsed_row workflow w.now) cs))
          h)

-- The tables after the rows of a workflow and its parts have been written.
unfoldable pub cleared : Workflow → Database → Database
cleared x d = record d {
  workflows = put_row (row_of d.keeps x) d.workflows;
  connections = filter (λ r. not (r.workflow_id == x.id)) d.connections;
  nodes = filter (λ r. not (r.workflow_id == x.id)) d.nodes;
}

unfoldable pub filled : Workflow → ℕ → Database → Database
filled x now d = record d {
  nodes = d.nodes ++ map (node_row x.id now) x.nodes;
  connections = d.connections ++ map (parsed_row x.id now) x.connections;
}

clear-Gives :
    (x : Workflow) (w : World)
    → Gives Unit tt
        (with_database (cleared x w.database) w)
        ((upsert_workflow x >> (delete_connections_of x.id >> delete_nodes_of x.id)) w)
unfolding upsert_workflow delete_connections_of delete_nodes_of cleared
clear-Gives x w = >>=-Gives (upsert_workflow x) _ w (exec_unless-Gives _ _ w) (λ gs _.
    any_faults gs _ (
      >>=-Gives (delete_connections_of x.id) _ _ (exec_unless-Gives _ _ _)
        (λ hs _. any_faults hs _ (exec_unless-Gives _ _ _))))

fill-Gives :
    (x : Workflow) (w : World)
    → Gives
        (All Parses x.connections)
        tt
        (with_database (filled x w.now w.database) w)
        ((save_workflow_nodes x.id x.nodes >> save_workflow_connections x.id x.connections) w)
unfolding filled
fill-Gives x w =
    >>=-Gives (save_workflow_nodes x.id x.nodes) _ w (save_workflow_nodes-Gives x.id x.nodes w)
      (λ gs _. any_faults gs _ (save_workflow_connections-Gives x.id x.connections _))

-- How a workflow stands after it has been saved with an identifier.
abbrev pub SavedAs : Workflow → ℕ → Workflow → Type 0
SavedAs x now y =
    (y ≡ grouped (record (stamp now x) { id = y.id })) × ((x.id == "") ≡ false → y.id ≡ x.id)

module _ (x : Workflow) (w : World) where
  -- The tables after the call, and what the call returns.
  abbrev pub Saved : Workflow → World → Type 0
  Saved y w' =
      (w'.database ≡ filled y w.now (cleared y w.database))
      × SavedAs x w.now y
      × All Parses y.connections

  -- No row has changed; one more transaction may be left open.
  abbrev pub Unsaved : Error → World → Type 0
  Unsaved e w' =
      (w'.database ≡ w.database)
      ⊎ (w'.database ≡ record w.database { abandoned = suc w.database.abandoned })

  write-Ensures :
      (y : Workflow) (v : World)
      → v.database ≡ w.database
      → v.now ≡ w.now
      → SavedAs x w.now y
      → Ensures Saved Unsaved (write y v)
  unfolding write commit
  write-Ensures y v e n h =
      act-Ensures begin _ (begin-Reads v)
        (λ gs _.
          rollback-Ensures v.database _ _ (record v { faults = gs }) (clear-Gives y _)
            (λ hs _.
              abandon-Ensures v.database _ _ _ (fill-Gives y _)
                (λ js p.
                  rollback-Ensures v.database _ _ _ (io-Gives io_failed _)
                    (λ ks _. returns (rw (e, n) refl, h, p)) (λ e' u. inl e))
                (λ e' u. inr (rw e refl)))
            (λ e' u. inl e))
        (λ gs _. inl e)

  -- The workflow's identifier, or a new one.
  Named : String → World → Type 0
  Named id v = (v.database ≡ w.database) × (v.now ≡ w.now) × ((x.id == "") ≡ false → id ≡ x.id)

  id_or_new-Ensures :
      (uuid : ℕ → String) (b : Bool)
      → (x.id == "") ≡ b
      → Ensures Named Unsaved (id_or_new uuid b x.id w)
  unfolding Named id_or_new generate_id
  id_or_new-Ensures uuid true e =
      act-Ensures (io io_failed) _ (io-Reads io_failed w)
        (λ gs _. returns (refl, refl, λ f. absurd (cc (e, f)))) (λ gs _. inl refl)
  id_or_new-Ensures uuid false e = returns (refl, refl, λ f. refl)

  -- Saving writes the workflow and its parts, or changes no row.
  pub save-Ensures : (uuid : ℕ → String) → Ensures Saved Unsaved (save uuid x w)
  unfolding save grouped Named
  save-Ensures uuid =
      >>=-Ensures (id_or_new uuid (x.id == "") x.id) _ w (id_or_new-Ensures uuid (x.id == "") refl)
        (λ id v h. write-Ensures _ v h.0 h.1 (refl, h.2))
