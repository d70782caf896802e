-- ===== src/Models/Port/Joining.antt =====
-- The parts of a port's identifier give it back (pkg/models/port.go, `ParsePortID`).
use mathlib.Core.Option
use Prim.Native.Char.{Char, code}
use Prim.Native.String
use Prim.Native.String.{[], ◌∷◌}
use text.Mathlib.TextEquality.{Char-path}
use text.Mathlib.TextLemmas.{nil-append, cons-append}
use operion.Base.{
  String, arith, true, ◌≡◌, refl, sym, ap, ◌∙◌, inl, inr, Bool-cases, Option, none, some,
}
use operion.Models.Port.{parse_port_id, is_colon, after}

is_colon-code : (c : Char) → is_colon c ≡ true → code c ≡ code ":"
is_colon-code c h = ground (arith, h)

abbrev pub joined : String → String → String
joined a b = String.◌++◌ a (String.◌++◌ ":" b)

-- Joining the parts of a port's identifier gives it back.
pub join-parse_port_id : (s a b : String) → parse_port_id s ≡ some (a, b) → joined a b ≡ s
unfolding parse_port_id
join-parse_port_id [] a b e = absurd (cc e)
join-parse_port_id (c ∷ s) a b e = elim (Bool-cases (is_colon c)) [
  | inl h ↦ first_char (is_colon-code c h) (rw h at e)
  | inr h ↦ later (join-parse_port_id s) (parse_port_id s) refl (rw h at e)
]
  where
    of_parts : {p : String × String} → p ≡ (a, b) → joined a b ≡ joined p.0 p.1
    of_parts q = ap (λ p. joined p.0 p.1) (sym q)

    first_char :
        code c ≡ code ":"
        → Path (Option (String × String)) (some ("", s)) (some (a, b))
        → joined a b ≡ c ∷ s
    first_char f g =
        of_parts (Option.some-injective _ _ g)
        ∙ rw (nil-append, cons-append, nil-append) (ap (λ d. d ∷ s) (sym (Char-path c ":" f)))

    later :
        ((x y : String) → parse_port_id s ≡ some (x, y) → joined x y ≡ s)
        → (o : Option (String × String)) → parse_port_id s ≡ o
        → after c o ≡ some (a, b)
        → joined a b ≡ c ∷ s
    later k none f g = absurd (cc g)
    later k (some (x, y)) f g =
        of_parts (Option.some-injective _ _ g) ∙ rw cons-append (ap (λ t. c ∷ t) (k x y f))
