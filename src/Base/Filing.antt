-- ===== src/Base/Filing.antt =====
-- Records that a dictionary keeps under their own identifiers, each once.
use Prim.Native.String.{String}
use mathlib.Core.Path.{◌≡◌, refl, ap, sym, ◌∙◌}
use mathlib.Core.Logic.{◌⊎◌, inl, inr}
use mathlib.Core.Bool.{false}
use mathlib.Core.Option
use mathlib.Core.Option.{Option, none, some}
use mathlib.Core.List.{[], ◌∷◌, Memᴰ}
use mathlib.Core.List.Memᴰ
use native.Mathlib.Omega.{arith}
use text.Mathlib.Text.{◌==◌}
use text.Mathlib.TextEquality.{eq_iff}
use text.Mathlib.TextPositions.{eq_refl}
use operion.Base.Tests.{if◌then◌else◌, Bool-cases}
use operion.Base.Dictionary.{
  Dict, lookup, insert, insert_by, delete, values, lookup-insert_by, lookup-delete,
}

module _ {ℓ} {V : Type ℓ} (id : V → String) where
  abbrev pub Filed : Dict V → Type ℓ
  Filed [] = Unit
  Filed ((k, v) ∷ m) = (id v ≡ k) × (lookup k m ≡ none) × Filed m

  pub insert-Filed : (v : V) (m : Dict V) → Filed m → Filed (insert (id v) v m)
  unfolding insert insert_by lookup
  insert-Filed v [] h = (refl, refl, tt)
  insert-Filed v ((j, w) ∷ m) (p, q, h) = elim (Bool-cases (j == id v)) [
    | inl e ↦ rw e (refl, rw ((eq_iff j (id v)).0 e) at q, h)
    | inr e ↦ rw e (p, absent e, insert-Filed v m h)
  ]
    where
      absent : (j == id v) ≡ false → lookup j (insert_by (λ _ _. false) (id v) v m) ≡ none
      absent e =
          lookup-insert_by (λ _ _. false) (id v) j v m
          ∙ ground (arith, eq_iff j (id v), eq_iff (id v) j, e, q)

  pub delete-Filed : (k : String) (m : Dict V) → Filed m → Filed (delete k m)
  unfolding delete
  delete-Filed k [] h = h
  delete-Filed k ((j, w) ∷ m) (p, q, h) = elim (Bool-cases (j == k)) [
    | inl e ↦ rw e (delete-Filed k m h)
    | inr e ↦ rw e (p, (lookup-delete k j m ∙ ground (arith, q)), delete-Filed k m h)
  ]

  -- A record of the dictionary is found under its identifier.
  pub lookup-Filed : (v : V) (m : Dict V) → Filed m → Memᴰ v (values m) → lookup (id v) m ≡ some v
  unfolding lookup
  lookup-Filed v [] h d = absurd (Memᴰ.not-nil d)
  lookup-Filed v ((j, w) ∷ m) (p, q, h) d = here_or_there (lookup-Filed v m h) (Memᴰ.cases_cons d)
    where
      here_or_there :
          (Memᴰ v (values m) → lookup (id v) m ≡ some v)
          → (v ≡ w) ⊎ Memᴰ v (values m)
          → (if j == id v then some w else lookup (id v) m) ≡ some v
      here_or_there k (inl e) = rw (e, p, eq_refl j) refl
      here_or_there k (inr d) = elim (Bool-cases (j == id v)) [
        | inl e ↦ absurd (cc (k d, rw ((eq_iff j (id v)).0 e) at q))
        | inr e ↦ rw e (k d)
      ]

  -- What is found under an identifier has it.
  pub lookup-id : (k : String) (v : V) (m : Dict V) → Filed m → lookup k m ≡ some v → id v ≡ k
  unfolding lookup
  lookup-id k v [] h e = absurd (cc e)
  lookup-id k v ((j, w) ∷ m) (p, q, h) e = elim (Bool-cases (j == k)) [
    | inl b ↦ ap id (Option.some-injective _ _ (sym (rw b at e))) ∙ p ∙ (eq_iff j k).0 b
    | inr b ↦ lookup-id k v m h (rw b at e)
  ]
