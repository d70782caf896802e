-- ===== src/Worker/Coordinator/Ready.antt =====
-- When a node is ready, by the inputs that have arrived (cmd/operion-worker/input_coordinator.go).
use operion.Base.{
  ℕ, String, Bool, true, false, not, ◌||◌, ◌&&◌, ◌==◌, eq_refl, ◌≡◌, ◌↔◌, refl, sym, ap, subst, ◌∙◌,
  inl, inr, arith, Bool-cases, if◌then◌else◌, List, [], ◌∷◌, All, all, any, is_empty, Dict,
  lookup-insert, insert, insert_by,
}
use operion.Models.Execution.{NodeResult, NodeInputState, wait_all, wait_any, wait_first}
use operion.Worker.Coordinator.{has_input, is_node_ready, with_input}

-- The state after the given inputs have arrived one after another.
unfoldable pub deliver : Dict NodeResult → ℕ → NodeInputState → NodeInputState
deliver [] now s = s
deliver ((port, result) ∷ ins) now s = deliver ins now (with_input port result now s)

-- Whether an input for the port is among the given ones.
abbrev pub arrives : Dict NodeResult → String → Bool
arrives ins port = any (λ i. i.0 == port) ins

has_input-with_input :
    (port q : String) (result : NodeResult) (now : ℕ) (s : NodeInputState)
    → has_input (with_input port result now s) q ≡ (port == q || has_input s q)
unfolding has_input with_input
has_input-with_input port q result now s =
    rw (lookup-insert port q result s.received_inputs)
      (elim (Bool-cases (port == q)) [ inl e ↦ rw e refl | inr e ↦ rw e refl ])

has_input-deliver :
    (ins : Dict NodeResult) (now : ℕ) (s : NodeInputState) (q : String)
    → has_input (deliver ins now s) q ≡ (arrives ins q || has_input s q)
unfolding deliver
has_input-deliver [] now s q = refl
has_input-deliver ((port, result) ∷ ins) now s q =
    has_input-deliver ins now (with_input port result now s) q
    ∙ ground (arith, has_input-with_input port q result now s)

deliver-requirements :
    (ins : Dict NodeResult) (now : ℕ) (s : NodeInputState)
    → (deliver ins now s).requirements ≡ s.requirements
unfolding deliver with_input
deliver-requirements [] now s = refl
deliver-requirements ((port, result) ∷ ins) now s =
    deliver-requirements ins now (with_input port result now s)

is_empty-insert :
    (port : String) (result : NodeResult) (m : Dict NodeResult)
    → is_empty (insert port result m) ≡ false
unfolding insert insert_by
is_empty-insert port result [] = refl
is_empty-insert port result ((k, v) ∷ m) = ground arith

and_false : (b : Bool) → (b && false) ≡ false
and_false true = refl
and_false false = refl

deliver-is_empty :
    (ins : Dict NodeResult) (now : ℕ) (s : NodeInputState)
    → is_empty (deliver ins now s).received_inputs ≡ (is_empty ins && is_empty s.received_inputs)
unfolding deliver with_input
deliver-is_empty [] now s = refl
deliver-is_empty ((port, result) ∷ ins) now s =
    deliver-is_empty ins now (with_input port result now s)
    ∙ ap (λ b. is_empty ins && b) (is_empty-insert port result s.received_inputs)
    ∙ and_false (is_empty ins)

all-cong :
    (p q : String → Bool) (xs : List String) → ((x : String) → p x ≡ q x) → all p xs ≡ all q xs
all-cong p q [] h = refl
all-cong p q (x ∷ xs) h = rw (h x, all-cong p q xs h) refl

any-cong :
    (p q : String → Bool) (xs : List String) → ((x : String) → p x ≡ q x) → any p xs ≡ any q xs
any-cong p q [] h = refl
any-cong p q (x ∷ xs) h = rw (h x, any-cong p q xs h) refl

is_empty-arrives :
    (ins ins' : Dict NodeResult)
    → ((q : String) → arrives ins q ≡ arrives ins' q)
    → is_empty ins ≡ is_empty ins'
is_empty-arrives [] [] h = refl
is_empty-arrives [] ((port, result) ∷ ins') h = absurd (cc (h port, eq_refl port))
is_empty-arrives ((port, result) ∷ ins) [] h = absurd (cc (h port, eq_refl port))
is_empty-arrives (i ∷ ins) (j ∷ ins') h = refl

-- The decision of `is_node_ready`, over what it asks of the state.
abbrev ready_by : String → Bool → Bool → Bool → Bool
ready_by mode all_in any_in none_in =
    if mode == wait_all
    then all_in
    else if mode == wait_any
    then any_in
    else if mode == wait_first
    then not none_in
    else not none_in

is_node_ready-ready_by :
    (s : NodeInputState)
    → is_node_ready s
      ≡ ready_by s.requirements.wait_mode
          (all (has_input s) s.requirements.required_ports)
          (any (has_input s) s.requirements.required_ports)
          (is_empty s.received_inputs)
unfolding is_node_ready
is_node_ready-ready_by s = refl

ready_by-cong :
    {m m' : String} {a a' b b' n n' : Bool}
    → m ≡ m'
    → a ≡ a'
    → b ≡ b'
    → n ≡ n'
    → ready_by m a b n ≡ ready_by m' a' b' n'
ready_by-cong em ea eb en = λ i. ready_by (em i) (ea i) (eb i) (en i)

is_node_ready-cong :
    (s s' : NodeInputState)
    → s.requirements ≡ s'.requirements
    → ((q : String) → has_input s q ≡ has_input s' q)
    → is_empty s.received_inputs ≡ is_empty s'.received_inputs
    → is_node_ready s ≡ is_node_ready s'
is_node_ready-cong s s' same_requirements same_inputs same_empty =
    let mode = ap (λ r. r.wait_mode) same_requirements in
    let ports = ap (λ r. r.required_ports) same_requirements in
    let alls =
      all-cong (has_input s) (has_input s') s.requirements.required_ports same_inputs
      ∙ ap (all (has_input s')) ports in
    let anys =
      any-cong (has_input s) (has_input s') s.requirements.required_ports same_inputs
      ∙ ap (any (has_input s')) ports in
    is_node_ready-ready_by s
    ∙ ready_by-cong mode alls anys same_empty
    ∙ sym (is_node_ready-ready_by s')

-- Whether a node is ready depends only on the set of the ports on which inputs have arrived,
-- whatever its wait mode: neither on their order nor on how often a port got one.
pub is_node_ready-deliver :
    (ins ins' : Dict NodeResult) (now : ℕ) (s : NodeInputState)
    → ((q : String) → arrives ins q ≡ arrives ins' q)
    → is_node_ready (deliver ins now s) ≡ is_node_ready (deliver ins' now s)
is_node_ready-deliver ins ins' now s h =
    is_node_ready-cong (deliver ins now s) (deliver ins' now s)
      (deliver-requirements ins now s ∙ sym (deliver-requirements ins' now s))
      (λ q.
        has_input-deliver ins now s q
        ∙ ap (λ b. b || has_input s q) (h q)
        ∙ sym (has_input-deliver ins' now s q))
      (deliver-is_empty ins now s
        ∙ ap (λ b. b && is_empty s.received_inputs) (is_empty-arrives ins ins' h)
        ∙ sym (deliver-is_empty ins' now s))

all_iff : (p : String → Bool) (xs : List String) → (all p xs ≡ true) ↔ All (λ x. p x ≡ true) xs
all_iff p [] = (λ _. tt, λ _. refl)
all_iff p (x ∷ xs) = ground (arith, all_iff p xs)

-- A node that waits for all its ports is ready after the given inputs exactly when an input for
-- each of its required ports is among theirs or was there before.
pub is_node_ready-All_iff :
    (ins : Dict NodeResult) (now : ℕ) (s : NodeInputState)
    → s.requirements.wait_mode ≡ wait_all
    → (is_node_ready (deliver ins now s) ≡ true)
      ↔ All (λ port. (arrives ins port || has_input s port) ≡ true) s.requirements.required_ports
is_node_ready-All_iff ins now s mode =
    let ports = s.requirements.required_ports in
    let kept = deliver-requirements ins now s in
    let arrived = deliver ins now s in
    let every =
      ap (λ r. all (has_input arrived) r.required_ports) kept
      ∙ all-cong _ _ ports (has_input-deliver ins now s) in
    let decided =
      is_node_ready-ready_by arrived
      ∙ ready_by-cong (ap (λ r. r.wait_mode) kept ∙ mode) every refl refl in
    subst (λ b. (b ≡ true) ↔ All (λ port. (arrives ins port || has_input s port) ≡ true) ports)
      (sym decided) (all_iff _ ports)
