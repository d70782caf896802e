-- ===== src/Nodes/HttpRequest/Execution.antt =====
-- Running the HTTP request node (pkg/nodes/httprequest/node.go, `Execute`).
use operion.Base.{
  ℕ, zero, suc, String, Bool, true, false, ◌==◌, if◌then◌else◌, List, [], ◌∷◌, map, Dict, Option,
  none, some,
}
use operion.Models.Value.{Value, string, as_string}
use operion.Models.Number.{ℤ, pos, negsuc}
use operion.Models.Port.{Port, new_port}
use operion.Models.Execution.{NodeResult, ExecutionContext, InputRequirements}
use operion.Models.Event.{Error, http_error}
use operion.Store.{Result, ok, err}
use operion.Registry.{Node}
use operion.Template.{Engine, render_with_context}
use operion.Nodes.Common.{
  input_port_main, output_port_success, output_port_error, success_on, create_error_result,
  wait_for, text_or,
}
use operion.Nodes.HttpRequest.{HttpRequestNode, Client, perform_request}

-- `errors.As(err, &httpErr)`.
unfoldable pub is_http_error : Error → Bool
is_http_error (http_error status message) = true
is_http_error _ = false

-- How the loop ends: with a result, or with the last error if there is one; and the number of
-- requests that it has sent.
pub record Attempts : Type 0 where
  pub answer : Option (Dict Value)
  pub last_error : Option Error
  pub requests : ℕ

abbrev pub after_attempt : ℕ → Result (Dict Value) → (Error → Attempts) → Attempts
after_attempt sent (ok m) again = record { answer = some m; last_error = none; requests = sent }
after_attempt sent (err e) again =
    if is_http_error e
    then record { answer = none; last_error = some e; requests = sent }
    else again e

-- The retry loop of `Execute` over the results of the requests by their numbers: `left` more
-- attempts, after `sent` requests with this last error.
unfoldable pub retry : (ℕ → Result (Dict Value)) → ℕ → ℕ → Option Error → Attempts
retry perform zero sent last = record { answer = none; last_error = last; requests = sent }
retry perform (suc left) sent last =
    after_attempt (suc sent) (perform (suc sent)) (λ e. retry perform left (suc sent) (some e))

-- The number of rounds of `for attempt := 1; attempt <= attempts; attempt++`.
unfoldable pub rounds : ℤ → ℕ
rounds (pos n) = n
rounds (negsuc n) = 0

-- A header's template, or the header as it stands.
abbrev rendered_or : String → Result Value → String
rendered_or value (ok (string s)) = s
rendered_or value _ = value

unfoldable pub render_headers : Engine → ExecutionContext → Dict String → Dict String
render_headers g c [] = []
render_headers g c ((k, v) ∷ m) =
    (k, rendered_or v (render_with_context g v c)) ∷ render_headers g c m

unfoldable pub result_of : HttpRequestNode → Option (Dict Value) → Dict NodeResult
result_of n none = create_error_result n.id "HTTP request failed"
result_of n (some m) = success_on n.id output_port_success m

-- `Execute` from the rendered address and body on.
unfoldable pub attempts_of :
    Engine → Client → HttpRequestNode → ExecutionContext → String → String → Attempts
attempts_of g h n c url body =
    retry (perform_request g h n url body (render_headers g c n.config.headers))
      (rounds n.config.retries.attempts) 0 none

abbrev rendered_body : Engine → HttpRequestNode → ExecutionContext → Result (Option String)
rendered_body g n c =
    if n.config.body == "" then ok (some "") else of_body (render_with_context g n.config.body c)
  where
    of_body : Result Value → Result (Option String)
    of_body (ok v) = ok (as_string (some v))
    of_body (err e) = err e

abbrev with_body :
    Engine
    → Client
    → HttpRequestNode
    → ExecutionContext
    → String
    → Result (Option String)
    → Dict NodeResult
with_body g h n c url (err e) = create_error_result n.id "failed to render body template"
with_body g h n c url (ok body) = result_of n (attempts_of g h n c url (text_or "" body)).answer

unfoldable pub requested :
    Engine → Client → HttpRequestNode → ExecutionContext → Result Value → Dict NodeResult
requested g h n c (err e) = create_error_result n.id "failed to render URL template"
requested g h n c (ok (string url)) = with_body g h n c url (rendered_body g n c)
requested g h n c (ok v) = create_error_result n.id "URL template must render to string"

-- `Execute`.
unfoldable pub execute_http_request :
    Engine
    → Client
    → HttpRequestNode
    → ExecutionContext
    → Dict NodeResult
    → Result (Dict NodeResult)
execute_http_request g h n c inputs = ok (requested g h n c (render_with_context g n.config.url c))

-- `InputRequirements`.
unfoldable pub http_request_requirements : InputRequirements
unfolding wait_for
http_request_requirements = wait_for input_port_main

-- `InputPorts` and `OutputPorts`.
unfoldable pub http_request_input_ports : HttpRequestNode → List Port
http_request_input_ports n = new_port n.id input_port_main ∷ []

unfoldable pub http_request_output_ports : HttpRequestNode → List Port
http_request_output_ports n = map (new_port n.id) (output_port_success ∷ output_port_error ∷ [])

-- The node as the worker uses it.
unfoldable pub http_request_node : Engine → Client → HttpRequestNode → Node
http_request_node g h n = record {
  input_requirements = some http_request_requirements;
  execute = execute_http_request g h n;
}
