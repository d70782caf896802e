-- ===== src/Template.antt =====
-- Rendering a configuration's text against an execution (pkg/template/template.go).
use Prim.Native.Char.{Char, code}
use Prim.Native.String.{[], ◌∷◌}
use text.Mathlib.Text.{starts_with}
use operion.Base.{
  ℕ, String, Bool, true, false, ◌&&◌, ◌||◌, ◌==◌, eqb, leb, if◌then◌else◌, List, Dict, Option, none,
  some,
}
use operion.Models.Value.{Value, bool, string, float64, object, object_of}
use operion.Models.Execution.{NodeResult, ExecutionContext}
use operion.Models.Event.{invalid_config}
use operion.Store.{Result, ok, err}

-- What the package calls of Go's libraries: `text/template` with the functions that it adds, the
-- decoder of `encoding/json`, `strconv.ParseFloat` and the verb `%v` of `fmt`.
pub record Engine : Type 0 where
  pub env : Dict Value
  pub expand : String → Dict Value → Result String
  pub parse_json : String → Option Value
  pub parse_float : String → Option ℕ
  pub format : Value → String

-- The flattened node results: each node's data.
unfoldable pub flatten_results : Dict NodeResult → Dict Value
flatten_results List.[] = List.[]
flatten_results (List.◌∷◌ (id, result) rs) =
    List.◌∷◌ (id, object (object_of result.fields)) (flatten_results rs)

abbrev entry : String → Dict Value → Dict Value → Dict Value
entry k v rest = List.◌∷◌ (k, object (object_of v)) rest

-- The data of `RenderWithContext`.
unfoldable pub template_data : Engine → ExecutionContext → Dict Value
template_data g c = entry "node_results" (flatten_results c.node_results) (
    entry "variables" c.variables (
      entry "trigger_data" c.trigger_data (
        entry "metadata" c.metadata (
          entry "env" g.env (
            entry "execution"
              (List.◌∷◌ ("id", string c.id)
                (List.◌∷◌ ("workflow_id", string c.workflow_id) List.[]))
              List.[])))))

is_space : Char → Bool
is_space c =
    let n = code c in
    (leb 9 n && leb n 13)
    || eqb n 32
    || eqb n 0x85
    || eqb n 0xa0
    || eqb n 0x1680
    || (leb 0x2000 n && leb n 0x200a)
    || eqb n 0x2028
    || eqb n 0x2029
    || eqb n 0x202f
    || eqb n 0x205f
    || eqb n 0x3000

trim_left : String → String
trim_left [] = []
trim_left (c ∷ s) = if is_space c then trim_left s else c ∷ s

abbrev keep_unless_blank : Char → String → String
keep_unless_blank c s = if is_space c && s == "" then "" else c ∷ s

trim_right : String → String
trim_right [] = []
trim_right (c ∷ s) = keep_unless_blank c (trim_right s)

-- `strings.TrimSpace`.
unfoldable pub trim_space : String → String
unfolding trim_left trim_right is_space
trim_space s = trim_left (trim_right s)

-- `strings.HasSuffix`.
unfoldable pub ends_with : String → String → Bool
ends_with [] t = t == ""
ends_with (c ∷ s) t = (c ∷ s) == t || ends_with s t

-- `strconv.ParseBool`; `none` is its error.
unfoldable pub parse_bool : String → Option Bool
parse_bool s =
    if s == "1" || s == "t" || s == "T" || s == "TRUE" || s == "true" || s == "True"
    then some true
    else if s == "0" || s == "f" || s == "F" || s == "FALSE" || s == "false" || s == "False"
    then some false
    else none

unfoldable pub looks_like_json : String → Bool
looks_like_json s = (starts_with s "{" && ends_with s "}") || (starts_with s "[" && ends_with s "]")

abbrev json_or_error : String → Option Value → Result Value
json_or_error input none = err (invalid_config input)
json_or_error input (some v) = ok v

abbrev bool_or_string : String → Option Bool → Value
bool_or_string s none = string s
bool_or_string s (some b) = bool b

abbrev number_or : Value → Option ℕ → Value
number_or v none = v
number_or v (some bits) = float64 bits

-- What `Render` makes of the text that the template gives.
unfoldable pub read_rendered : Engine → String → String → Result Value
read_rendered g input text =
    let s = trim_space text in
    if looks_like_json s
    then json_or_error input (g.parse_json s)
    else ok (number_or (bool_or_string s (parse_bool s)) (g.parse_float s))

abbrev then_read : Engine → String → Result String → Result Value
then_read g input (err e) = err e
then_read g input (ok text) = read_rendered g input text

-- `Render`.
unfoldable pub render : Engine → String → Dict Value → Result Value
render g input data_ = then_read g input (g.expand input data_)

-- `RenderWithContext`.
unfoldable pub render_with_context : Engine → String → ExecutionContext → Result Value
render_with_context g input c = render g input (template_data g c)
