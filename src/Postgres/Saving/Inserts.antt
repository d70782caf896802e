-- ===== src/Postgres/Saving/Inserts.antt =====
-- When the nodes and connections of a workflow can all be inserted
-- (pkg/persistence/postgresql/workflow.go, `saveWorkflowNodes` and `saveWorkflowConnections`).
use mathlib.Core.Bool.{true≢false}
use mathlib.Core.List.{append_assoc, append-nil}
use operion.Base.{
  ℕ, String, Bool, true, false, not, any, ◌||◌, ◌&&◌, ◌==◌, eq_refl, ◌≡◌, refl, ap, ◌∙◌, inl, inr,
  Bool-cases, List, [], ◌∷◌, ◌++◌, map, filter, some,
}
use operion.Models.Port.{parse_port_id}
use operion.Models.Workflow.{WorkflowNode, Connection}
use operion.Models.Database.{NodeRow, ConnectionRow, Database}
use operion.Store.{World, done}
use operion.Postgres.Saving.{
  node_row, has_node, insert_node, save_workflow_nodes, connection_row, same_connection, joins_same,
  has_connection, insert_connection, save_workflow_connections,
}
use operion.Postgres.Saving.Rows.{with_nodes, with_connections, parts, parsed_row, Parses}
use operion.Postgres.Undisturbed.{exec_unless-done, >>-done}

-- Each node's identifier differs from those of the nodes before it.
abbrev pub Fresh : List WorkflowNode → List WorkflowNode → Type 0
Fresh seen [] = Unit
Fresh seen (n ∷ ns) = (any (λ m. m.id == n.id) seen ≡ false) × Fresh (seen ++ (n ∷ [])) ns

either-false : (a b : Bool) → (a || b) ≡ false → (a ≡ false) × (b ≡ false)
either-false true b e = absurd (true≢false e)
either-false false b e = (refl, e)

any-append {ℓ} :
    {A : Type ℓ} (p : A → Bool) (xs ys : List A)
    → any p xs ≡ false
    → any p ys ≡ false
    → any p (xs ++ ys) ≡ false
any-append p [] ys e f = f
any-append p (x ∷ xs) ys e f =
    let (g, h) = either-false (p x) (any p xs) e in rw g (any-append p xs ys h f)

-- The rows of a workflow, of which the others' rows are none.
module _ {R : Type 0} (workflow_of : R → String) (workflow : String) where
  abbrev others : List R → List R
  others rows = filter (λ r. not (workflow_of r == workflow)) rows

  any-others :
      (p : R → Bool) (rows : List R)
      → ((r : R) → (workflow_of r == workflow) ≡ false → p r ≡ false)
      → any p (others rows) ≡ false
  any-others p [] k = refl
  any-others p (r ∷ rows) k = elim (Bool-cases (workflow_of r == workflow)) [
    | inl g ↦ rw (filter, g) (any-others p rows k)
    | inr g ↦ rw (filter, g, k r g) (any-others p rows k)
  ]

  any-rows :
      {X : Type 0} (p : R → Bool) (q : X → Bool) (row : X → R) (old : List R) (seen : List X)
      → ((r : R) → (workflow_of r == workflow) ≡ false → p r ≡ false)
      → ((x : X) → p (row x) ≡ q x)
      → any q seen ≡ false
      → any p (others old ++ map row seen) ≡ false
  any-rows p q row old seen k l e =
      any-append p (others old) (map row seen) (any-others p old k) (own seen e)
    where
      own : (xs : List _) → any q xs ≡ false → any p (map row xs) ≡ false
      own [] h = refl
      own (x ∷ xs) h = let (g, i) = either-false (q x) (any q xs) h in rw (l x, g) (own xs i)

append-map-snoc {ℓ κ} :
    {A : Type ℓ} {B : Type κ} (f : A → B) (ys : List B) (xs : List A) (x : A)
    → (ys ++ map f xs) ++ (f x ∷ []) ≡ ys ++ map f (xs ++ (x ∷ []))
append-map-snoc f [] [] x = refl
append-map-snoc f [] (z ∷ xs) x = ap (◌∷◌ (f z)) (append-map-snoc f [] xs x)
append-map-snoc f (y ∷ ys) xs x = ap (◌∷◌ y) (append-map-snoc f ys xs x)

has_node-false :
    (workflow id : String) (d : Database) (old : List NodeRow) (now : ℕ) (seen : List WorkflowNode)
    → d.nodes ≡ others (λ r. r.workflow_id) workflow old ++ map (node_row workflow now) seen
    → any (λ m. m.id == id) seen ≡ false
    → has_node workflow id d ≡ false
unfolding has_node node_row
has_node-false workflow id d old now seen e f = rw e (
    any-rows (λ r. r.workflow_id) workflow (λ r. r.workflow_id == workflow && r.node.id == id)
      (λ m. m.id == id) (node_row workflow now) old seen (λ r g. rw g refl)
      (λ m. rw (eq_refl workflow) refl) f)

insert_node-done :
    (workflow : String) (n : WorkflowNode) (w : World)
    → w.faults ≡ []
    → has_node workflow n.id w.database ≡ false
    → insert_node workflow n w
      ≡ done tt (with_nodes w.database (w.database.nodes ++ (node_row workflow w.now n ∷ [])) w)
unfolding insert_node
insert_node-done workflow n w e f = exec_unless-done _ _ w e f

pub save_workflow_nodes-done :
    (workflow : String) (old : List NodeRow) (seen ns : List WorkflowNode) (w : World)
    → w.faults ≡ []
    → w.database.nodes
      ≡ others (λ r. r.workflow_id) workflow old ++ map (node_row workflow w.now) seen
    → Fresh seen ns
    → save_workflow_nodes workflow ns w
      ≡ done tt (with_nodes w.database (w.database.nodes ++ map (node_row workflow w.now) ns) w)
unfolding save_workflow_nodes
save_workflow_nodes-done workflow old seen [] w e f h = rw append-nil refl
save_workflow_nodes-done workflow old seen (n ∷ ns) w e f (p, h) =
    >>-done (insert_node workflow n) (save_workflow_nodes workflow ns) w _
      (insert_node-done workflow n w e (has_node-false workflow n.id w.database old w.now seen f p))
    ∙ save_workflow_nodes-done workflow old (seen ++ (n ∷ [])) ns
        (with_nodes w.database (w.database.nodes ++ (node_row workflow w.now n ∷ [])) w) e
        (ap (λ l. l ++ (node_row workflow w.now n ∷ [])) f
          ∙ append-map-snoc (node_row workflow w.now) _ seen n)
        h
    ∙ ap (λ l. done tt (with_nodes w.database l w))
        (append_assoc w.database.nodes (node_row workflow w.now n ∷ [])
          (map (node_row workflow w.now) ns))

-- Two connections that the table does not take both.
abbrev pub collides : Connection → Connection → Bool
collides b c =
    b.id == c.id
    || ((parts (parse_port_id b.source_port)).0 == (parts (parse_port_id c.source_port)).0
        && (parts (parse_port_id b.source_port)).1 == (parts (parse_port_id c.source_port)).1
        && (parts (parse_port_id b.target_port)).0 == (parts (parse_port_id c.target_port)).0
        && (parts (parse_port_id b.target_port)).1 == (parts (parse_port_id c.target_port)).1)

-- Each connection's ports can be parsed, and its identifier and its pair of ports differ from
-- those of the connections before it.
abbrev pub FreshJoins : List Connection → List Connection → Type 0
FreshJoins seen [] = Unit
FreshJoins seen (c ∷ cs) =
    ((any (λ b. collides b c) seen ≡ false) × Parses c) × FreshJoins (seen ++ (c ∷ [])) cs

has_connection-false :
    (workflow : String) (c : Connection) (d : Database) (old : List ConnectionRow) (now : ℕ)
    (seen : List Connection)
    → d.connections ≡ others (λ r. r.workflow_id) workflow old ++ map (parsed_row workflow now) seen
    → any (λ b. collides b c) seen ≡ false
    → has_connection (parsed_row workflow now c) d ≡ false
unfolding has_connection joins_same parsed_row connection_row
has_connection-false workflow c d old now seen e f = rw e (
    any-rows (λ r. r.workflow_id) workflow
      (λ s.
        same_connection s (parsed_row workflow now c) || joins_same s (parsed_row workflow now c))
      (λ b. collides b c) (parsed_row workflow now) old seen (λ r g. rw g refl)
      (λ b. rw (eq_refl workflow) refl) f)

insert_connection-done :
    (workflow : String) (c : Connection) (source target : String × String) (w : World)
    → parse_port_id c.source_port ≡ some source
    → parse_port_id c.target_port ≡ some target
    → w.faults ≡ []
    → has_connection (parsed_row workflow w.now c) w.database ≡ false
    → insert_connection workflow c source target w
      ≡ done tt (
          with_connections w.database
            (w.database.connections ++ (parsed_row workflow w.now c ∷ []))
            w)
unfolding insert_connection parsed_row
insert_connection-done workflow c source target w e f g h =
    rw (e, f) (exec_unless-done _ _ w g (rw (e, f) at h))

pub save_workflow_connections-done :
    (workflow : String) (old : List ConnectionRow) (seen cs : List Connection) (w : World)
    → w.faults ≡ []
    → w.database.connections
      ≡ others (λ r. r.workflow_id) workflow old ++ map (parsed_row workflow w.now) seen
    → FreshJoins seen cs
    → save_workflow_connections workflow cs w
      ≡ done tt (
          with_connections w.database
            (w.database.connections ++ map (parsed_row workflow w.now) cs)
            w)
unfolding save_workflow_connections
save_workflow_connections-done workflow old seen [] w e f h = rw append-nil refl
save_workflow_connections-done workflow old seen (c ∷ cs) w e f
      ((p, ((source, g), (target, i))), h) =
    rw (g, i)
      (>>-done (insert_connection workflow c source target) (save_workflow_connections workflow cs)
        w _
        (insert_connection-done workflow c source target w g i e
          (has_connection-false workflow c w.database old w.now seen f p)))
    ∙ save_workflow_connections-done workflow old (seen ++ (c ∷ [])) cs
        (with_connections w.database (w.database.connections ++ (parsed_row workflow w.now c ∷ []))
          w)
        e
        (ap (λ l. l ++ (parsed_row workflow w.now c ∷ [])) f
          ∙ append-map-snoc (parsed_row workflow w.now) _ seen c)
        h
    ∙ ap (λ l. done tt (with_connections w.database l w))
        (append_assoc w.database.connections (parsed_row workflow w.now c ∷ [])
          (map (parsed_row workflow w.now) cs))
