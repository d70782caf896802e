-- ===== src/Tests/Requests.antt =====
-- The HTTP request node (pkg/nodes/httprequest/node.go).
use operion.Base.{
  ℕ, eqb, true, false, List, lookup, ◌≤◌, String, ◌≡◌, refl, arith, [], ◌∷◌, none, some,
}
use operion.Models.Value.{
  Value, string, float64, object, field, no_fields, as_string, as_object, nil,
}
use operion.Models.Number.{pos, to_int, magnitude, float_ltb}
use operion.Models.Execution.{ExecutionContext, execution_running}
use operion.Models.Event.{http_error, request_failed}
use operion.Store.{Result, ok, err}
use operion.Template.{Engine}
use operion.Nodes.HttpRequest.{HttpRequestNode, Client, response, new_http_request_node, as_float}
use operion.Nodes.HttpRequest.Execution.{retry, rounds, attempts_of}
use operion.Nodes.HttpRequest.Rules.{validate_http_request, validate_retry_config, outside}
use operion.Nodes.HttpRequest.Retries.{
  results, up_to_final, tried, retry-up_to_final, AtMost, attempts_of-bounds, attempts_of-on_status,
}
use operion.Nodes.HttpRequest.Validation.{validate_http_request-bounds}

abbrev engine : Engine
engine = record {
  env = [];
  expand = λ text _. ok text;
  parse_json = λ _. none;
  parse_float = λ _. none;
  format = λ _. "";
}

abbrev context : ExecutionContext
context = record {
  id = "execution";
  workflow_id = "workflow";
  status = execution_running;
  node_results = [];
  trigger_data = [];
  variables = [];
  metadata = [];
  error_message = "";
  created_at = 1;
  completed_at = none;
}

-- The first answer of a server that is busy has the status 503.
abbrev client : Client
client = record {
  exchange = λ number request. response 503 "busy";
  canonical = λ name. name;
  to_upper = λ text. text;
}

abbrev config : Value → Value
config attempts = object (field "attempts" attempts no_fields)

-- Three attempts.
abbrev node : HttpRequestNode
node = record {
  id = "call";
  config = record {
    url = "https://example.org";
    method = "GET";
    headers = [];
    body = "";
    timeout = pos 30;
    retries = record { attempts = pos 3; delay = pos 0 };
  };
}

-- No answer, then an answer.
perform : ℕ → Result (List (String × Value))
perform number = elim (eqb number 2) [
  | true ↦ ok (("status_code", nil) ∷ [])
  | false ↦ err (request_failed "request failed")
]

retry-up_to_final_example :
    retry perform 3 0 none ≡ tried 0 none (up_to_final (results perform 3 0))
retry-up_to_final_example = retry-up_to_final perform 3 0 none

attempts_of-bounds_example :
    AtMost (pos 3) (attempts_of engine client node context "https://example.org" "").requests
attempts_of-bounds_example = attempts_of-bounds engine client node context "https://example.org" ""

three_rounds : rounds (pos 3) ≡ 3
unfolding rounds
three_rounds = refl

attempts_of-on_status_example :
    attempts_of engine client node context "https://example.org" ""
    ≡ record { answer = none; last_error = some (http_error 503 "busy"); requests = 1 }
attempts_of-on_status_example =
    attempts_of-on_status engine client node context "https://example.org" "" "busy" 503 2
      (omega arith) three_rounds refl

-- The configuration asks for 4 attempts.
abbrev four_attempts : List (String × Value)
four_attempts =
    ("url", string "https://example.org") ∷ ("retries", config (float64 0x4010000000000000)) ∷ []

abbrev made_node : HttpRequestNode
made_node = record node {
  config = record node.config { retries = record { attempts = pos 4; delay = pos 0 } };
}

is_valid : validate_http_request client four_attempts ≡ none
unfolding validate_http_request lookup as_string as_object as_float outside float_ltb
    validate_retry_config
is_valid = refl

is_made : new_http_request_node client "call" four_attempts ≡ ok made_node
unfolding new_http_request_node lookup as_string as_object as_float to_int magnitude
is_made = refl

validate_http_request-bounds_example :
    (attempts_of engine client made_node context "https://example.org" "").requests ≤ 10
validate_http_request-bounds_example =
    validate_http_request-bounds engine client "call" four_attempts made_node context
      "https://example.org" "" is_valid is_made
