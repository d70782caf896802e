-- ===== src/Nodes/Validation.antt =====
-- Making a switch node and validating its configuration (pkg/nodes/switch/node.go).
use operion.Base.{String, ◌≡◌, refl, List, [], ◌∷◌, Dict, insert, lookup, Option, none, some}
use operion.Models.Value.{Value, as_string, as_slice, string}
use operion.Models.Event.{Error}
use operion.Store.{Result, ok, err}
use operion.Nodes.Switch.{
  SwitchNode, new_switch_node, made, cases_or_none, then_case, checked, config_error, read_case,
  read_cases, validate_cases, validate_switch,
}

-- One case that can be read, and the cases after it.
then_case-checked :
    {d : Dict String} (r : Result (String × String)) (rest : String → String → Result (Dict String))
    (e : Option Error)
    → ((value port : String) → rest value port ≡ ok d → e ≡ none)
    → then_case r rest ≡ ok d
    → checked r e ≡ none
then_case-checked (err f) rest e k h = absurd (cc h)
then_case-checked (ok (value, port)) rest e k h = k value port h

read_cases-validate_cases :
    (cases d : Dict String) (vs : List Value)
    → read_cases cases vs ≡ ok d
    → validate_cases vs ≡ none
unfolding read_cases validate_cases
read_cases-validate_cases cases d [] h = refl
read_cases-validate_cases cases d (v ∷ vs) h =
    then_case-checked (read_case v) (λ value port. read_cases (insert value port cases) vs)
      (validate_cases vs) (λ value port. read_cases-validate_cases (insert value port cases) d vs) h

made-config_error :
    (id : String) (n : SwitchNode) (v : Option Value) (cases : Option (List Value))
    → made id (as_string v) (cases_or_none cases) ≡ ok n
    → config_error v cases ≡ none
unfolding as_string
made-config_error id n none cases h = absurd (cc h)
made-config_error id n (some v) none h = refl
made-config_error id n (some (string s)) (some vs) h = made_of (read_cases [] vs) refl h
  where
    made_of :
        (r : Result (Dict String))
        → read_cases [] vs ≡ r
        → made id (some s) r ≡ ok n
        → validate_cases vs ≡ none
    made_of (ok d) e k = read_cases-validate_cases [] d vs e
    made_of (err f) e k = absurd (cc k)
made-config_error id n (some v) (some vs) h = absurd (cc h)

-- A configuration that a switch node can be made from is a valid one.
pub new_switch_node-validate_switch :
    (id : String) (config : Dict Value) (n : SwitchNode)
    → new_switch_node id config ≡ ok n
    → validate_switch config ≡ none
unfolding new_switch_node validate_switch
new_switch_node-validate_switch id config n h =
    made-config_error id n (lookup "value" config) (as_slice (lookup "cases" config)) h
