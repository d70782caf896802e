-- ===== src/Models/Port/RoundTrip.antt =====
-- A port identifier is parsed back, when the node's identifier holds no colon.
use Prim.Native.String.{[], ◌∷◌}
use text.Mathlib.TextLemmas.{nil-append, cons-append}
use operion.Base.{String, ◌≡◌, refl, false, some}
use operion.Models.Port.{is_colon, parse_port_id, make_port_id}

abbrev pub HasNoColon : String → Type 0
HasNoColon [] = Unit
HasNoColon (c ∷ s) = (is_colon c ≡ false) × HasNoColon s

-- Parsing the identifier that is made from a node and a port gives both back, if the node's
-- identifier holds no colon; the port's name may hold some.
pub parse_port_id-make_port_id :
    (node port : String)
    → HasNoColon node
    → parse_port_id (make_port_id node port) ≡ some (node, port)
unfolding parse_port_id make_port_id
parse_port_id-make_port_id [] port h = rw nil-append (rw cons-append (rw nil-append refl))
parse_port_id-make_port_id (c ∷ node) port (p, h) =
    rw cons-append (rw (p, parse_port_id-make_port_id node port h) refl)
