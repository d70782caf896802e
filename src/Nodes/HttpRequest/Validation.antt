-- ===== src/Nodes/HttpRequest/Validation.antt =====
-- The bounds that the validation of an HTTP request node's configuration ensures
-- (pkg/nodes/httprequest/node.go, `Validate` and `validateRetryConfig`).
use operion.Base.{
  ℕ, ◌≤◌, String, false, ◌≡◌, refl, sym, ap, subst, inl, inr, arith, Bool-cases, Dict, lookup,
  Option, none, some,
}
use operion.Models.Value.{Value, as_object, as_string}
use operion.Models.Number.{ℤ, pos, negsuc, to_int}
use operion.Models.Number.Bounds.{to_int-10}
use operion.Models.Execution.{ExecutionContext}
use operion.Store.{Result, ok, err}
use operion.Template.{Engine}
use operion.Nodes.HttpRequest.{
  HttpRequestNode, Client, int_or, as_float, retries_or_once, new_http_request_node, made,
  RetryConfig,
}
use operion.Nodes.HttpRequest.Execution.{rounds, attempts_of}
use operion.Nodes.HttpRequest.Rules.{
  outside, float_1, float_10, validate_retry_config, validate_http_request, config_error,
  retries_error, invalid_method, float_300,
}
use operion.Nodes.HttpRequest.Retries.{attempts_of-rounds}

rounds-10 : (z : ℤ) → ((n : ℕ) → z ≡ pos n → n ≤ 10) → rounds z ≤ 10
unfolding rounds
rounds-10 (pos n) h = h n refl
rounds-10 (negsuc n) h = omega arith

int_or-10 : (o : Option ℕ) → outside float_1 float_10 o ≡ false → rounds (int_or (pos 1) o) ≤ 10
unfolding outside rounds
int_or-10 none h = omega arith
int_or-10 (some x) h = rounds-10 (to_int x) (λ n. to_int-10 x n (ground (arith, h)))

retries-10 :
    (o : Option (Dict Value)) → retries_error o ≡ none → rounds (retries_or_once o).attempts ≤ 10
unfolding rounds validate_retry_config
retries-10 none h = omega arith
retries-10 (some m) h =
    elim (Bool-cases (outside float_1 float_10 (as_float (lookup "attempts" m)))) [
      | inl q ↦ absurd (cc (rw q at h))
      | inr q ↦ int_or-10 (as_float (lookup "attempts" m)) q
    ]

config_error-retries :
    (h : Client) (config : Dict Value) (o : Option Value)
    → config_error h config o ≡ none
    → retries_error (as_object (lookup "retries" config)) ≡ none
config_error-retries h config none p = absurd (cc p)
config_error-retries h config (some v) p =
    elim (Bool-cases (invalid_method h (as_string (lookup "method" config)))) [
      | inl q ↦ absurd (cc (rw q at p))
      | inr q ↦ elim (Bool-cases (outside float_1 float_300 (as_float (lookup "timeout" config)))) [
        | inl t ↦ absurd (cc (rw (q, t) at p))
        | inr t ↦ rw (q, t) at p
      ]
    ]

retries_in : RetryConfig → Result HttpRequestNode → RetryConfig
retries_in otherwise (ok n) = n.config.retries
retries_in otherwise (err e) = otherwise

made-retries :
    (h : Client) (id : String) (config : Dict Value) (url : Option String) (n : HttpRequestNode)
    → made h id config url ≡ ok n
    → n.config.retries ≡ retries_or_once (as_object (lookup "retries" config))
unfolding retries_in
made-retries h id config none n p = absurd (cc p)
made-retries h id config (some url) n p = sym (ap (retries_in n.config.retries) p)

-- A node made from a configuration that passes its validation sends at most ten requests in an
-- execution.
pub validate_http_request-bounds :
    (g : Engine) (h : Client) (id : String) (config : Dict Value) (n : HttpRequestNode)
    (c : ExecutionContext) (url body : String)
    → validate_http_request h config ≡ none
    → new_http_request_node h id config ≡ ok n
    → (attempts_of g h n c url body).requests ≤ 10
unfolding validate_http_request new_http_request_node
validate_http_request-bounds g h id config n c url body v p = omega (
  arith,
  attempts_of-rounds g h n c url body,
  subst (λ r. rounds r.attempts ≤ 10)
      (sym (made-retries h id config (as_string (lookup "url" config)) n p))
      (retries-10 (as_object (lookup "retries" config))
        (config_error-retries h config (lookup "url" config) v)),
)
