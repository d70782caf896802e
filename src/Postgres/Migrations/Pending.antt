-- ===== src/Postgres/Migrations/Pending.antt =====
-- The migrations above the recorded versions, and the tables after them
-- (pkg/persistence/sqlbase/migration.go).
use mathlib.Core.List.{append_assoc, append-nil, map-append}
use operion.Base.{
  ℕ, ltb, eqb, any, arith, Bool, true, false, ◌≡◌, refl, subst, inl, inr, Bool-cases, List, [], ◌∷◌,
  ◌++◌, map, filter,
}
use operion.Models.Database.{Migration, Database}
use operion.Postgres.Migrations.{larger, maximum}

-- The migrations above a version.
abbrev pub pending : ℕ → List Migration → List Migration
pending from ms = filter (λ m. ltb from m.version) ms

-- The tables after migrations.
unfoldable pub applied : List Migration → Database → Database
applied ms d = record d {
  scripts = d.scripts ++ map (λ m. m.script) ms;
  schema_migrations = d.schema_migrations ++ map (λ m. m.version) ms;
}

-- Each version differs from those before it.
abbrev pub Distinct : List ℕ → List Migration → Type 0
Distinct seen [] = Unit
Distinct seen (m ∷ ms) =
    (any (λ v. eqb v m.version) seen ≡ false) × Distinct (seen ++ (m.version ∷ [])) ms

pub applied-append :
    (xs ys : List Migration) (d : Database) → applied ys (applied xs d) ≡ applied (xs ++ ys) d
unfolding applied
applied-append xs ys d = rw (map-append, map-append, append_assoc, append_assoc) refl

pub any-append-false :
    (p : ℕ → Bool) (xs ys : List ℕ) → any p xs ≡ false → any p ys ≡ false → any p (xs ++ ys) ≡ false
any-append-false p [] ys e f = f
any-append-false p (x ∷ xs) ys e f = ground (arith, e, any-append-false p xs ys, f)

pub below_maximum :
    (n : ℕ) (vs : List ℕ) → ltb (maximum vs) n ≡ true → any (λ v. eqb v n) vs ≡ false
unfolding maximum
below_maximum n [] h = refl
below_maximum n (v ∷ vs) h = ground (arith, h, below_maximum n vs)

pub any-split :
    (p : ℕ → Bool) (xs ys : List ℕ)
    → any p (xs ++ ys) ≡ false
    → (any p xs ≡ false) × (any p ys ≡ false)
any-split p [] ys e = (refl, e)
any-split p (x ∷ xs) ys e = ground (arith, e, any-split p xs ys)

bounded : (n a b : ℕ) → ltb n (larger a b) ≡ false → (ltb n a ≡ false) × (ltb n b ≡ false)
bounded n a b e = ground (arith, e)

pending-skip :
    (n : ℕ) (m : Migration) (ms : List Migration)
    → ltb n m.version ≡ false
    → pending n ms ≡ []
    → pending n (m ∷ ms) ≡ []
pending-skip n m ms b e = rw (filter, b) e

pub nothing_pending :
    (from : ℕ) (ms : List Migration)
    → ltb from (maximum (map (λ m. m.version) ms)) ≡ false
    → pending from ms ≡ []
unfolding maximum
nothing_pending from [] h = refl
nothing_pending from (m ∷ ms) h =
    let (b, c) = bounded from m.version (maximum (map (λ n. n.version) ms)) h in
    pending-skip from m ms b (nothing_pending from ms c)

maximum-append :
    (xs ys : List ℕ)
    → (ltb (maximum (xs ++ ys)) (maximum xs) ≡ false)
      × (ltb (maximum (xs ++ ys)) (maximum ys) ≡ false)
unfolding maximum
maximum-append [] ys = ground arith
maximum-append (x ∷ xs) ys = ground (arith, maximum-append xs ys)

-- Above the versions of what was pending, nothing is pending.
settled :
    (from to : ℕ) (ms : List Migration)
    → ltb to from ≡ false
    → ltb to (maximum (map (λ m. m.version) (pending from ms))) ≡ false
    → pending to ms ≡ []
unfolding maximum
settled from to [] e h = refl
settled from to (m ∷ ms) e h = elim (Bool-cases (ltb from m.version)) [
  | inl b ↦
      let (c, i) =
        bounded to m.version (maximum (map (λ n. n.version) (pending from ms)))
          (subst highest b h) in
      pending-skip to m ms c (settled from to ms e i)
  | inr b ↦ pending-skip to m ms (ground (arith, e, b)) (settled from to ms e (subst highest b h))
]
  where
    highest : Bool → Type 0
    highest c =
        ltb to (
          maximum (
            map (λ m. m.version) (elim c [ true ↦ m ∷ pending from ms | false ↦ pending from ms ])))
        ≡ false

pub applied-nil : (d : Database) → applied [] d ≡ d
unfolding applied
applied-nil d = rw (append-nil, append-nil) refl

-- After what is pending has been applied nothing is.
pub applied-settles :
    (d : Database) (ms : List Migration)
    → pending (maximum (applied (pending (maximum d.schema_migrations) ms) d).schema_migrations) ms
      ≡ []
unfolding applied
applied-settles d ms =
    let versions = map (λ m. m.version) (pending (maximum d.schema_migrations) ms) in
    let (e, h) = maximum-append d.schema_migrations versions in
    settled (maximum d.schema_migrations) (maximum (d.schema_migrations ++ versions)) ms e h
