-- ===== src/Nodes/Contract.antt =====
-- A switch node keeps to the output ports that it declares (pkg/nodes/switch/node.go).
use mathlib.Core.Option
use operion.Base.{
  String, Bool, true, false, ◌&&◌, ◌==◌, eq_iff, eq_refl, ◌≡◌, refl, ap, ◌⊎◌, inl, inr, arith,
  Bool-cases, List, [], ◌∷◌, map, filter, all, any, Dict, lookup, values, Option, none, some,
}
use operion.Models.Value.{Value}
use operion.Models.Port.{Port, new_port}
use operion.Models.Execution.{NodeResult, ExecutionContext}
use operion.Store.{Result, ok, err}
use operion.Template.{Engine, render_with_context}
use operion.Nodes.Common.{output_port_error, success_on, create_error_result}
use operion.Nodes.Switch.{
  SwitchNode, execute_switch, switched, to_case, is_dynamic, switch_output_ports,
  output_port_default,
}

abbrev pub has_port : List Port → String → Bool
has_port ports name = any (λ p. p.name == name) ports

-- No error, and each output on one of the ports.
abbrev pub outputs_on : List Port → Result (Dict NodeResult) → Bool
outputs_on ports (err e) = false
outputs_on ports (ok outputs) = all (λ o. has_port ports (o.0)) outputs

has_port-new_port :
    (id name : String) (names : List String)
    → has_port (map (new_port id) names) name ≡ any (λ n. n == name) names
unfolding new_port
has_port-new_port id name [] = refl
has_port-new_port id name (n ∷ names) = rw (has_port-new_port id name names) refl

any-filter :
    (p : String → Bool) (name : String) (names : List String)
    → p name ≡ true
    → any (λ n. n == name) names ≡ true
    → any (λ n. n == name) (filter p names) ≡ true
any-filter p name [] h e = e
any-filter p name (n ∷ names) h e =
    split (any-filter p name names h) (p n) refl (Bool-cases (n == name))
  where
    split :
        (any (λ n. n == name) names ≡ true → any (λ n. n == name) (filter p names) ≡ true)
        → (b : Bool) → p n ≡ b
        → (n == name) ≡ true ⊎ (n == name) ≡ false
        → any (λ n. n == name) (elim b [ true ↦ n ∷ filter p names | false ↦ filter p names ])
          ≡ true
    split there true pn (inl q) = rw q refl
    split there true pn (inr q) = rw q (there (rw q at e))
    split there false pn (inl q) = absurd (cc (ap p ((eq_iff n name).0 q), pn, h))
    split there false pn (inr q) = there (rw q at e)

lookup-values :
    (k v : String) (m : Dict String) → lookup k m ≡ some v → any (λ u. u == v) (values m) ≡ true
unfolding lookup
lookup-values k v [] h = absurd (cc h)
lookup-values k v ((j, u) ∷ m) h = elim (Bool-cases (j == k)) [
  | inl q ↦ rw (Option.some-injective _ _ (rw q at h), eq_refl v) refl
  | inr q ↦ ground (arith, lookup-values k v m (rw q at h))
]

dynamic :
    (port : String)
    → (output_port_default == port) ≡ false
    → (output_port_error == port) ≡ false
    → is_dynamic port ≡ true
unfolding is_dynamic
dynamic port d f = ground (
  arith,
  eq_iff output_port_default port,
  eq_iff output_port_error port,
  eq_iff port output_port_default,
  eq_iff port output_port_error,
)

to_case-outputs_on :
    (n : SwitchNode) (text : String) (found : Option String)
    → lookup text n.cases ≡ found
    → outputs_on (switch_output_ports n) (ok (to_case n text found)) ≡ true
unfolding switch_output_ports to_case success_on
to_case-outputs_on n text none e =
    rw
      (has_port-new_port n.id output_port_default
        (output_port_default ∷ output_port_error ∷ filter is_dynamic (values n.cases)))
      refl
to_case-outputs_on n text (some port) e =
    rw
      (has_port-new_port n.id port
        (output_port_default ∷ output_port_error ∷ filter is_dynamic (values n.cases)))
      (listed port (lookup-values text port n.cases e))
  where
    listed :
        (port : String)
        → any (λ u. u == port) (values n.cases) ≡ true
        → (any
              (λ u. u == port)
              (output_port_default ∷ output_port_error ∷ filter is_dynamic (values n.cases))
            && true)
          ≡ true
    listed port there = elim (Bool-cases (output_port_default == port)) [
      | inl d ↦ rw d refl
      | inr d ↦ elim (Bool-cases (output_port_error == port)) [
        | inl f ↦ rw (d, f) refl
        | inr f ↦
            rw (d, f, any-filter is_dynamic port (values n.cases) (dynamic port d f) there) refl
      ]
    ]

-- Whatever the template gives, a switch node returns no error, and its outputs are on ports that
-- it declares.
pub execute_switch-outputs_on :
    (g : Engine) (n : SwitchNode) (c : ExecutionContext) (inputs : Dict NodeResult)
    → outputs_on (switch_output_ports n) (execute_switch g n c inputs) ≡ true
unfolding execute_switch switched switch_output_ports create_error_result new_port
execute_switch-outputs_on g n c inputs = switched-outputs_on (render_with_context g n.value c)
  where
    switched-outputs_on :
        (r : Result Value) → outputs_on (switch_output_ports n) (ok (switched g n r)) ≡ true
    switched-outputs_on (ok v) = to_case-outputs_on n (g.format v) _ refl
    switched-outputs_on (err e) = refl
