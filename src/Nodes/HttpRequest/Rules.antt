-- ===== src/Nodes/HttpRequest/Rules.antt =====
-- Which configurations of the HTTP request node pass (pkg/nodes/httprequest/node.go, `Validate`).
use operion.Base.{
  ℕ, String, Bool, false, not, ◌||◌, ◌==◌, if◌then◌else◌, List, [], ◌∷◌, any, Dict, lookup, Option,
  none, some,
}
use operion.Models.Value.{Value, as_string, as_object}
use operion.Models.Number.{float_ltb}
use operion.Models.Event.{Error, field_required, invalid_config}
use operion.Nodes.HttpRequest.{Client, as_float}

-- A number, if there is one, that lies outside the bounds, given as `float64` values.
unfoldable pub outside : ℕ → ℕ → Option ℕ → Bool
outside low high none = false
outside low high (some x) = float_ltb x low || float_ltb high x

abbrev valid_methods : List String
valid_methods = "GET" ∷ "POST" ∷ "PUT" ∷ "DELETE" ∷ "PATCH" ∷ "HEAD" ∷ "OPTIONS" ∷ []

-- The `float64` values 0, 1, 10, 300 and 30000.
abbrev float_0 : ℕ
float_0 = 0

abbrev pub float_1 : ℕ
float_1 = 0x3ff0000000000000

abbrev pub float_10 : ℕ
float_10 = 0x4024000000000000

abbrev pub float_300 : ℕ
float_300 = 0x4072c00000000000

abbrev float_30000 : ℕ
float_30000 = 0x40dd4c0000000000

abbrev pub invalid_method : Client → Option String → Bool
invalid_method h none = false
invalid_method h (some method) = not (any (λ m. m == h.to_upper method) valid_methods)

-- `validateRetryConfig`.
unfoldable pub validate_retry_config : Dict Value → Option Error
validate_retry_config retries =
    if outside float_1 float_10 (as_float (lookup "attempts" retries))
    then some (invalid_config "attempts")
    else if outside float_0 float_30000 (as_float (lookup "delay" retries))
    then some (invalid_config "delay")
    else none

abbrev pub retries_error : Option (Dict Value) → Option Error
retries_error none = none
retries_error (some retries) = validate_retry_config retries

abbrev pub config_error : Client → Dict Value → Option Value → Option Error
config_error h config none = some (field_required "url")
config_error h config (some _) =
    if invalid_method h (as_string (lookup "method" config))
    then some (invalid_config "method")
    else if outside float_1 float_300 (as_float (lookup "timeout" config))
    then some (invalid_config "timeout")
    else retries_error (as_object (lookup "retries" config))

-- `Validate`.
unfoldable pub validate_http_request : Client → Dict Value → Option Error
validate_http_request h config = config_error h config (lookup "url" config)
