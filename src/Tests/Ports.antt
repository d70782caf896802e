-- ===== src/Tests/Ports.antt =====
-- Port identifiers and the readiness of nodes (pkg/models/port.go,
-- cmd/operion-worker/input_coordinator.go).
use operion.Base.{
  String, true, false, ◌≡◌, ◌↔◌, refl, ◌||◌, All, arith, [], ◌∷◌, Dict, lookup, insert, insert_by,
  some, none,
}
use operion.Models.Port.{parse_port_id, make_port_id}
use operion.Models.Port.RoundTrip.{parse_port_id-make_port_id}
use operion.Models.Execution.{NodeResult, NodeInputState, wait_all, wait_any, node_success}
use operion.Worker.Coordinator.{is_node_ready, has_input, with_input}
use operion.Worker.Coordinator.Ready.{
  deliver, arrives, is_node_ready-deliver, is_node_ready-All_iff,
}

port_with_colon : parse_port_id "node-1:success:late" ≡ some ("node-1", "success:late")
unfolding parse_port_id
port_with_colon = refl

no_port : parse_port_id "node-1" ≡ none
unfolding parse_port_id
no_port = refl

parse_port_id-make_port_id_example :
    parse_port_id (make_port_id "node" "out:1") ≡ some ("node", "out:1")
parse_port_id-make_port_id_example =
    parse_port_id-make_port_id "node" "out:1" (refl, (refl, (refl, (refl, tt))))

abbrev result : String → NodeResult
result source = record {
  node_id = source;
  fields = [];
  status = node_success;
  timestamp = 0;
  error = "";
}

abbrev waiting : String → NodeInputState
waiting mode = record {
  node_id = "merge";
  execution_id = "execution";
  node_execution_id = "node-exec-0";
  received_inputs = [];
  requirements = record {
    required_ports = "a" ∷ "b" ∷ [];
    optional_ports = [];
    wait_mode = mode;
    timeout = none;
  };
  created_at = 0;
  last_updated_at = 0;
}

abbrev a_then_b : Dict NodeResult
a_then_b = ("a", result "n") ∷ ("b", result "m") ∷ []

abbrev b_a_a : Dict NodeResult
b_a_a = ("b", result "m") ∷ ("a", result "n") ∷ ("a", result "k") ∷ []

half_ready : is_node_ready (deliver (("a", result "n") ∷ []) 1 (waiting wait_all)) ≡ false
unfolding is_node_ready has_input deliver with_input insert insert_by lookup
half_ready = refl

any_ready : is_node_ready (deliver (("a", result "n") ∷ []) 1 (waiting wait_any)) ≡ true
unfolding is_node_ready has_input deliver with_input insert insert_by lookup
any_ready = refl

same_ports : (q : String) → arrives a_then_b q ≡ arrives b_a_a q
same_ports q = ground arith

is_node_ready-deliver_example :
    is_node_ready (deliver a_then_b 1 (waiting wait_all))
    ≡ is_node_ready (deliver b_a_a 1 (waiting wait_all))
is_node_ready-deliver_example = is_node_ready-deliver a_then_b b_a_a 1 (waiting wait_all) same_ports

is_node_ready-All_iff_example :
    (is_node_ready (deliver a_then_b 1 (waiting wait_all)) ≡ true)
    ↔ All
        (λ port. (arrives a_then_b port || has_input (waiting wait_all) port) ≡ true)
        ("a" ∷ "b" ∷ [])
is_node_ready-All_iff_example = is_node_ready-All_iff a_then_b 1 (waiting wait_all) refl
