-- ===== src/Models/Port.antt =====
-- Port identifiers (pkg/models/port.go).
pub mod RoundTrip
pub mod Joining
use Prim.Native.Char.{Char, code}
use Prim.Native.String
use Prim.Native.String.{[], ◌∷◌}
use operion.Base.{String, Bool, ◌≡◌, eqb, if◌then◌else◌, Option, none, some}

pub record Port : Type 0 where
  pub id : String
  pub node_id : String
  pub name : String

abbrev pub is_colon : Char → Bool
is_colon c = eqb (code c) b':'

-- The part before the place that the loop has reached grows by `c`.
abbrev pub after : Char → Option (String × String) → Option (String × String)
after c none = none
after c (some (node, port)) = some (c ∷ node, port)

-- `ParsePortID`: the parts before and after the first colon; `none` is the result `"", "", false`.
unfoldable pub parse_port_id : String → Option (String × String)
parse_port_id [] = none
parse_port_id (c ∷ s) = if is_colon c then some ("", s) else after c (parse_port_id s)

-- `MakePortID`.
unfoldable pub make_port_id : String → String → String
make_port_id node port = String.◌++◌ node (String.◌++◌ ":" port)

unfoldable pub new_port : String → String → Port
unfolding make_port_id
new_port node name = record { id = make_port_id node name; node_id = node; name = name }
