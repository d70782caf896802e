-- ===== src/Base/Dictionary.antt =====
-- Dictionaries with text keys: Go maps, and folders of files in the order of their listing.
use Prim.Native.String.{String}
use mathlib.Core.Path.{◌≡◌, refl}
use mathlib.Core.Bool.{Bool, false}
use mathlib.Core.Option.{Option, none, some}
use mathlib.Core.List.{List, [], ◌∷◌}
use native.Mathlib.Omega.{arith}
use text.Mathlib.Text.{◌==◌}
use text.Mathlib.TextEquality.{eq_iff}
use operion.Base.Tests.{if◌then◌else◌}

abbrev pub Dict {ℓ} : Type ℓ → Type ℓ
Dict V = List (String × V)

module _ {ℓ} {V : Type ℓ} where
  unfoldable pub lookup : String → Dict V → Option V
  lookup k [] = none
  lookup k ((j, v) ∷ m) = if j == k then some v else lookup k m

  -- The value at `k` becomes `v`; a new key goes before the first key that it `precedes`.
  unfoldable pub insert_by : (String → String → Bool) → String → V → Dict V → Dict V
  insert_by precedes k v [] = (k, v) ∷ []
  insert_by precedes k v ((j, w) ∷ m) =
      if j == k
      then (k, v) ∷ m
      else if precedes k j
      then (k, v) ∷ (j, w) ∷ m
      else (j, w) ∷ insert_by precedes k v m

  -- `m[k] = v`; the order of a Go map is left open, so that a new key comes last says nothing.
  unfoldable pub insert : String → V → Dict V → Dict V
  unfolding insert_by
  insert k v m = insert_by (λ _ _. false) k v m

  unfoldable pub delete : String → Dict V → Dict V
  delete k [] = []
  delete k ((j, v) ∷ m) = let rest = delete k m in if j == k then rest else (j, v) ∷ rest

  abbrev pub keys : Dict V → List String
  keys [] = []
  keys ((j, v) ∷ m) = j ∷ keys m

  abbrev pub values : Dict V → List V
  values [] = []
  values ((j, v) ∷ m) = v ∷ values m

  pub lookup-insert_by :
      (precedes : String → String → Bool) (k j : String) (v : V) (m : Dict V)
      → lookup j (insert_by precedes k v m) ≡ (if k == j then some v else lookup j m)
  unfolding lookup insert_by
  lookup-insert_by precedes k j v [] = refl
  lookup-insert_by precedes k j v ((i, w) ∷ m) =
      ground (arith, eq_iff k j, eq_iff i k, eq_iff i j, lookup-insert_by precedes k j v m)

  pub lookup-insert :
      (k j : String) (v : V) (m : Dict V)
      → lookup j (insert k v m) ≡ (if k == j then some v else lookup j m)
  unfolding insert
  lookup-insert k j v m = lookup-insert_by (λ _ _. false) k j v m

  pub lookup-delete :
      (k j : String) (m : Dict V) → lookup j (delete k m) ≡ (if k == j then none else lookup j m)
  unfolding lookup delete
  lookup-delete k j [] = ground arith
  lookup-delete k j ((i, w) ∷ m) =
      ground (arith, eq_iff k j, eq_iff i k, eq_iff i j, lookup-delete k j m)
