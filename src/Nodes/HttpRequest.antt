-- ===== src/Nodes/HttpRequest.antt =====
-- The HTTP request node (pkg/nodes/httprequest/node.go).
pub mod Execution
pub mod Rules
pub mod Retries
pub mod Validation
use operion.Base.{
  ℕ, zero, suc, ◌+◌, String, Bool, true, false, not, ◌&&◌, ◌||◌, ◌==◌, leb, if◌then◌else◌, List, [],
  ◌∷◌, map, any, Dict, lookup, insert, Option, none, some,
}
use operion.Models.Value.{Value, string, int, float64, other, as_string, as_object}
use operion.Models.Number.{ℤ, pos, negsuc, float_ltb, to_int}
use operion.Models.Port.{Port, new_port}
use operion.Models.Execution.{NodeResult, ExecutionContext, InputRequirements}
use operion.Models.Event.{Error, field_required, invalid_config, http_error, request_failed}
use operion.Store.{Result, ok, err}
use operion.Registry.{Node}
use operion.Template.{Engine, render_with_context}
use operion.Nodes.Common.{
  input_port_main, output_port_success, output_port_error, success_on, create_error_result,
  wait_for, text_or,
}

pub record RetryConfig : Type 0 where
  pub attempts : ℤ
  pub delay : ℤ

pub record HttpRequestConfig : Type 0 where
  pub url : String
  pub method : String
  pub headers : Dict String
  pub body : String
  pub timeout : ℤ
  pub retries : RetryConfig

pub record HttpRequestNode : Type 0 where
  pub id : String
  pub config : HttpRequestConfig

pub record HttpRequest : Type 0 where
  pub request_method : String
  pub request_url : String
  pub request_body : String
  pub request_headers : Dict String
  pub request_timeout : ℤ

-- What comes of a request: it cannot be made, nothing answers, the answer's body cannot be read,
-- or there is an answer with its status and its body.
pub data Exchange : Type 0 where
  not_created : Exchange
  no_response : Exchange
  unreadable : Exchange
  response : ℕ → String → Exchange

-- What the node calls of `net/http` and `strings`: the requests of one execution, by their number,
-- `http.CanonicalHeaderKey` and `strings.ToUpper`.
pub record Client : Type 0 where
  pub exchange : ℕ → HttpRequest → Exchange
  pub canonical : String → String
  pub to_upper : String → String

-- The type assertion `v.(float64)` of an entry that may be missing.
unfoldable pub as_float : Option Value → Option ℕ
as_float (some (float64 bits)) = some bits
as_float _ = none

abbrev int_or : ℤ → Option ℕ → ℤ
int_or n none = n
int_or n (some bits) = to_int bits

abbrev upper_or : Client → String → Option String → String
upper_or h s none = s
upper_or h s (some t) = h.to_upper t

abbrev with_text : String → Option String → Dict String → Dict String
with_text k none m = m
with_text k (some s) m = insert k s m

-- The entries of `headers` that are texts.
unfoldable pub string_entries : Dict Value → Dict String
string_entries [] = []
string_entries ((k, v) ∷ m) = with_text k (as_string (some v)) (string_entries m)

abbrev pub headers_or_none : Option (Dict Value) → Dict String
headers_or_none none = []
headers_or_none (some m) = string_entries m

abbrev retries_or_once : Option (Dict Value) → RetryConfig
retries_or_once none = record { attempts = pos 1; delay = pos 0 }
retries_or_once (some m) = record {
  attempts = int_or (pos 1) (as_float (lookup "attempts" m));
  delay = int_or (pos 0) (as_float (lookup "delay" m));
}

abbrev made : Client → String → Dict Value → Option String → Result HttpRequestNode
made h id config none = err (field_required "url")
made h id config (some url) = ok (record {
  id = id;
  config = record {
    url = url;
    method = upper_or h "GET" (as_string (lookup "method" config));
    headers = headers_or_none (as_object (lookup "headers" config));
    body = text_or "" (as_string (lookup "body" config));
    timeout = int_or (pos 30) (as_float (lookup "timeout" config));
    retries = retries_or_once (as_object (lookup "retries" config));
  };
})

-- `NewHTTPRequestNode`.
unfoldable pub new_http_request_node : Client → String → Dict Value → Result HttpRequestNode
new_http_request_node h id config = made h id config (as_string (lookup "url" config))

abbrev set_headers : Client → Dict String → Dict String → Dict String
set_headers h done_ [] = done_
set_headers h done_ ((k, v) ∷ m) = set_headers h (insert (h.canonical k) v done_) m

abbrev default_type : String → Dict String → Dict String
default_type body m =
    if not (body == "") && text_or "" (lookup "Content-Type" m) == ""
    then insert "Content-Type" "application/json" m
    else m

-- The request that `performRequest` sends.
unfoldable pub request_of : Client → HttpRequestNode → String → String → Dict String → HttpRequest
request_of h n url body headers = record {
  request_method = n.config.method;
  request_url = url;
  request_body = body;
  request_headers = default_type body (set_headers h [] headers);
  request_timeout = n.config.timeout;
}

abbrev with_json : Option Value → Dict Value → Dict Value
with_json none m = m
with_json (some v) m = insert "json" v m

-- What `performRequest` makes of the answer; `resp.Header` is a value of another type.
unfoldable pub read_exchange : Engine → Exchange → Result (Dict Value)
read_exchange g not_created = err (request_failed "failed to create request")
read_exchange g no_response = err (request_failed "request failed")
read_exchange g unreadable = err (request_failed "failed to read response")
read_exchange g (response status body) =
    if leb 400 status
    then err (http_error status body)
    else ok (
        with_json (g.parse_json body)
          (("status_code", int status) ∷ ("headers", other) ∷ ("body", string body) ∷ []))

-- `performRequest`, as the request with the given number.
unfoldable pub perform_request :
    Engine → Client → HttpRequestNode → String → String → Dict String → ℕ → Result (Dict Value)
perform_request g h n url body headers number =
    read_exchange g (h.exchange number (request_of h n url body headers))
