-- ===== src/Postgres/Saving/RoundTrip.antt =====
-- A workflow that has been saved is read back (pkg/persistence/postgresql/workflow.go, `Save` and
-- `GetByID`).
use mathlib.Core.List.{Perm}
use mathlib.Core.List.Perm
use mathlib.Core.Option
use operion.Base.{
  ℕ, String, Bool, true, not, ◌&&◌, ◌==◌, eq_refl, ◌≡◌, refl, ap, subst, ◌∙◌, inl, inr, Bool-cases,
  if◌then◌else◌, List, [], ◌∷◌, ◌++◌, map, filter, All, none, some,
}
use operion.Models.Port.Joining.{join-parse_port_id}
use operion.Models.Workflow.{Workflow, WorkflowNode, Connection}
use operion.Models.Database.{WorkflowRow, Database}
use operion.Models.Event.{io_failed}
use operion.Store.{World}
use operion.Store.Ensures.{Ensures, Ensures-weaken, Ensures-unless, Reads}
use operion.Postgres.{Sorting}
use operion.Postgres.Workflows.{scan_workflow_base, scan_connection, is_live, is_null, get_by_id}
use operion.Postgres.Workflows.Views.{
  nodes_of, connections_of, assembled, first_of, found, get_by_id-Reads,
}
use operion.Store.Workflows.{stamp}
use operion.Postgres.Saving.{row_of, put_row, node_row, connection_row, grouped, save}
use operion.Postgres.Saving.Success.{Storable, save-Returns}
use operion.Postgres.Saving.Rows.{
  parsed_row, Parses, cleared, filled, SavedAs, Unsaved, save-Ensures,
}

-- When the row of an identifier was created, or else the time that is given.
unfoldable pub created_before : String → ℕ → List WorkflowRow → ℕ
created_before id t [] = t
created_before id t (s ∷ rows) = if s.id == id then s.created_at else created_before id t rows

first_of-put_row :
    (sort : Sorting) (d : Database) (r : WorkflowRow) (rows : List WorkflowRow)
    → is_null r.deleted_at ≡ true
    → first_of sort d (filter (λ s. s.id == r.id && is_live s) (put_row r rows))
      ≡ some (
          assembled sort d
            (scan_workflow_base (record r { created_at = created_before r.id r.created_at rows })))
unfolding first_of put_row created_before
first_of-put_row sort d r [] h = rw (filter, eq_refl r.id, h) refl
first_of-put_row sort d r (s ∷ rows) h = elim (Bool-cases (s.id == r.id)) [
  | inl e ↦ rw (filter, e, eq_refl r.id, h) refl
  | inr e ↦ rw (filter, e, e) (first_of-put_row sort d r rows h)
]

filter-replaced {ℓ} :
    {A : Type ℓ} (p : A → Bool) (xs ys : List A)
    → All (λ y. p y ≡ true) ys
    → filter p (filter (λ x. not (p x)) xs ++ ys) ≡ ys
filter-replaced p [] [] h = refl
filter-replaced p [] (y ∷ ys) (e, h) = rw (e, filter-replaced p [] ys h) refl
filter-replaced p (x ∷ xs) ys h = elim (Bool-cases (p x)) [
  | inl e ↦ rw (filter, e) (filter-replaced p xs ys h)
  | inr e ↦ rw (filter, e, e) (filter-replaced p xs ys h)
]

scan-parsed_row :
    (id : String) (now : ℕ) (c : Connection) → Parses c → scan_connection (parsed_row id now c) ≡ c
unfolding scan_connection parsed_row connection_row
scan-parsed_row id now c (((a, b), e), ((x, y), f)) =
    rw (e, f, join-parse_port_id c.source_port a b e, join-parse_port_id c.target_port x y f) refl

map-scan :
    (id : String) (now : ℕ) (cs : List Connection)
    → All Parses cs
    → map scan_connection (map (parsed_row id now) cs) ≡ cs
map-scan id now [] h = refl
map-scan id now (c ∷ cs) (p, h) = rw (scan-parsed_row id now c p, map-scan id now cs h) refl

map-node :
    (id : String) (now : ℕ) (ns : List WorkflowNode)
    → map (λ r. r.node) (map (node_row id now) ns) ≡ ns
unfolding node_row
map-node id now [] = refl
map-node id now (n ∷ ns) = rw (map-node id now ns) refl

-- The rows that have been added are those of their workflow.
All-map {ℓ κ} :
    {A : Type ℓ} {B : Type κ} (p : B → Bool) (f : A → B) (xs : List A)
    → ((x : A) → p (f x) ≡ true)
    → All (λ y. p y ≡ true) (map f xs)
All-map p f [] h = tt
All-map p f (x ∷ xs) h = (h x, All-map p f xs h)

-- The rows of a query are those that its condition selects, in some order.
pub record Arranges (sort : Sorting) : Type 1 where
  pub ascending-Perm : {A : Type 0} (f : A → ℕ) (xs : List A) → Perm (sort.ascending f xs) xs

-- What is read of a workflow that was saved as `y` into columns that keep `keeps` of a time: all its
-- fields, with the time at which its row was created, and its nodes and connections in some order.
abbrev pub Copies : (ℕ → ℕ) → Workflow → List WorkflowRow → Workflow → Type 0
Copies keeps y rows z =
    (z ≡ record y {
      created_at = created_before y.id (keeps y.created_at) rows;
      updated_at = keeps y.updated_at;
      published_at = Option.map keeps y.published_at;
      nodes = z.nodes;
      connections = z.connections;
    })
    × Perm z.nodes y.nodes
    × Perm z.connections y.connections

live :
    (x : Workflow) (now : ℕ) (y : Workflow)
    → y ≡ grouped (record (stamp now x) { id = y.id })
    → x.deleted_at ≡ none
    → y.deleted_at ≡ none
unfolding grouped stamp
live x now y e h = ap (λ z. z.deleted_at) e ∙ h

-- Reading `y` gives a copy of it, or fails because something fails outside.
abbrev pub ReadsBack : Sorting → Workflow → Database → World → Type 0
ReadsBack sort y d w =
    (z : Workflow) × Copies d.keeps y d.workflows z
    × Reads io_failed (some z) w (get_by_id sort y.id w)

module _ (sort : Sorting) (arranges : Arranges sort) where
  nodes_of-filled :
      (y : Workflow) (now : ℕ) (d : Database)
      → Perm (map (λ r. r.node) (nodes_of sort y.id (filled y now (cleared y d)))) y.nodes
  unfolding nodes_of filled cleared node_row
  nodes_of-filled y now d =
      subst (λ ns. Perm (map (λ r. r.node) (nodes_of sort y.id (filled y now (cleared y d)))) ns)
        (map-node y.id now y.nodes)
        (Perm.map (λ r. r.node)
          (subst (λ rows. Perm (nodes_of sort y.id (filled y now (cleared y d))) rows)
            (filter-replaced (λ r. r.workflow_id == y.id) d.nodes (map (node_row y.id now) y.nodes)
              (All-map _ _ y.nodes (λ n. eq_refl y.id)))
            (arranges.ascending-Perm (λ r. r.created_at) _)))

  connections_of-filled :
      (y : Workflow) (now : ℕ) (d : Database)
      → All Parses y.connections
      → Perm
          (map scan_connection (connections_of sort y.id (filled y now (cleared y d))))
          y.connections
  unfolding connections_of filled cleared parsed_row connection_row
  connections_of-filled y now d h =
      subst
        (λ cs.
          Perm (map scan_connection (connections_of sort y.id (filled y now (cleared y d)))) cs)
        (map-scan y.id now y.connections h)
        (Perm.map scan_connection (
          subst (λ rows. Perm (connections_of sort y.id (filled y now (cleared y d))) rows)
            (filter-replaced (λ r. r.workflow_id == y.id) d.connections
              (map (parsed_row y.id now) y.connections)
              (All-map _ _ y.connections (λ c. eq_refl y.id)))
            (arranges.ascending-Perm (λ r. r.created_at) _)))

  found-filled :
      (y : Workflow) (now : ℕ) (d : Database)
      → y.deleted_at ≡ none
      → All Parses y.connections
      → (z : Workflow) × (found sort y.id (filled y now (cleared y d)) ≡ some z)
        × Copies d.keeps y d.workflows z
  unfolding found filled cleared row_of assembled scan_workflow_base
  found-filled y now d h p = (
    _,
    first_of-put_row sort (filled y now (cleared y d)) (row_of d.keeps y) d.workflows (rw h refl),
    (rw h refl, nodes_of-filled y now d, connections_of-filled y now d p),
  )

  -- Saving a workflow that is not deleted gives it back with its times set, and with an identifier
  -- and a group if it had none. Reading that identifier then finds all its fields, its times as the
  -- columns keep them, with the time at which its row was created first, and its nodes and
  -- connections in some order, unless the reading fails. If saving fails, no row has changed, a transaction may be left open, and it is
  -- not so that nothing fails outside and the tables take the workflow.
  pub save-get_by_id :
      (uuid : ℕ → String) (x : Workflow) (w : World)
      → x.deleted_at ≡ none
      → Ensures
          (λ y w'. SavedAs x w.now y × ReadsBack sort y w.database w')
          (λ e w'. Unsaved x w e w' × ¬ ((w.faults ≡ []) × Storable x))
          (save uuid x w)
  save-get_by_id uuid x w h =
      Ensures-weaken
        (λ y w' q.
          let (z, e, c) = found-filled y w.now w.database (live x w.now y q.1.0 h) q.2 in
          (
            q.1,
            (
              z,
              c,
              subst (λ o. Reads io_failed o w' (get_by_id sort y.id w')) (rw q.0 e)
                  (get_by_id-Reads sort y.id w'),
            ),
          ))
        (λ e w' q. q)
        (Ensures-unless (save uuid x w) (save-Ensures x w uuid)
          (λ p. save-Returns uuid x w p.0 p.1))
