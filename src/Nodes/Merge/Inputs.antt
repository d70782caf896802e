-- ===== src/Nodes/Merge/Inputs.antt =====
-- What a merge node passes on (pkg/nodes/merge/node.go, `Execute`).
use mathlib.Core.Option
use operion.Base.{
  String, Bool-cases, ◌==◌, eq_iff, ◌≡◌, refl, sym, ap, ◌∙◌, ◌⊎◌, inl, inr, [], ◌∷◌, map, Dict,
  keys, lookup, insert, lookup-insert, Option, none, some,
}
use operion.Models.Value.{Value, string, slice, object, object_of, slice_of}
use operion.Models.Execution.{NodeResult, ExecutionContext}
use operion.Store.{Result, ok}
use operion.Nodes.Common.{success_on}
use operion.Nodes.Merge.{MergeNode, merge_inputs, merged_output, execute_merge}

-- No port has two inputs.
abbrev pub Distinct : Dict NodeResult → Type 0
Distinct [] = Unit
Distinct ((port, r) ∷ inputs) = (lookup port inputs ≡ none) × Distinct inputs

abbrev pub data_of : NodeResult → Value
data_of r = object (object_of r.fields)

abbrev or_else : Option Value → Option Value → Option Value
or_else none o = o
or_else (some v) o = some v

or_none : (o : Option Value) → or_else o none ≡ o
or_none none = refl
or_none (some v) = refl

lookup-merge_inputs :
    (port : String) (m : Dict Value) (inputs : Dict NodeResult)
    → Distinct inputs
    → lookup port (merge_inputs m inputs)
      ≡ or_else (Option.map data_of (lookup port inputs)) (lookup port m)
unfolding merge_inputs lookup
lookup-merge_inputs port m [] d = refl
lookup-merge_inputs port m ((k, r) ∷ inputs) (e, d) = elim (Bool-cases (k == port)) [
  | inl q ↦
      rw
        (
          lookup-merge_inputs port (insert k (data_of r) m) inputs d,
          lookup-insert k port (data_of r) m,
          q,
        )
        (rw (ap (λ j. lookup j inputs) (sym ((eq_iff k port).0 q)) ∙ e) refl)
  | inr q ↦
      rw
        (
          lookup-merge_inputs port (insert k (data_of r) m) inputs d,
          lookup-insert k port (data_of r) m,
          q,
        )
        refl
]

-- What a merge node gives for its inputs: the data of each port's input under the port, the ports, and
-- the mode, on the port `merged`.
abbrev pub Merges : MergeNode → Dict NodeResult → Result (Dict NodeResult) → Type 0
Merges n inputs r =
    (merged : Dict Value) × (r
      ≡ ok (
          success_on n.id "merged" (
            ("merged_inputs", object (object_of merged))
            ∷ ("inputs_received", slice (slice_of (map string (keys inputs))))
            ∷ ("merge_mode", string n.merge_mode)
            ∷ [])))
    × ((port : String) → lookup port merged ≡ Option.map data_of (lookup port inputs))

-- Under the modes "all" and "any" a merge node passes on, on its port "merged", the data of each
-- port's input under the name of the port and nothing else, if no port has two inputs.
pub execute_merge-Merges :
    (n : MergeNode) (c : ExecutionContext) (inputs : Dict NodeResult)
    → (n.merge_mode ≡ "all") ⊎ (n.merge_mode ≡ "any")
    → Distinct inputs
    → Merges n inputs (execute_merge n c inputs)
unfolding execute_merge merged_output lookup
execute_merge-Merges n c inputs mode d = (
  merge_inputs [] inputs,
  chosen mode,
  λ port. lookup-merge_inputs port [] inputs d ∙ or_none (Option.map data_of (lookup port inputs)),
)
  where
    chosen :
        (n.merge_mode ≡ "all") ⊎ (n.merge_mode ≡ "any")
        → execute_merge n c inputs ≡ ok (merged_output n inputs)
    chosen (inl m) = rw m refl
    chosen (inr m) = rw m refl
