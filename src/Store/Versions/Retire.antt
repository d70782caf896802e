-- ===== src/Store/Versions/Retire.antt =====
-- The loop that takes the published versions of a group back, watched at one file.
use operion.Base.{
  ℕ, String, Bool, true, false, ◌==◌, eq_iff, ◌≡◌, refl, sym, ◌⊎◌, inl, inr, arith, Bool-cases,
  Option-cases, ◌||◌, if◌then◌else◌, List, [], ◌∷◌, All, any, Dict, keys, lookup, lookup-insert_by,
  none, some,
}
use mathlib.Core.Option
use mathlib.Core.Path.{subst}
use operion.Models.Workflow.{Workflow, status_published}
use operion.Store.{World}
use operion.Store.Ensures.{Quiet, Ensures, returns, Ensures-weaken, act-Ensures}
use operion.Store.Workflows.{lists_before, stamp, write_file, save}
use operion.Store.Workflows.Effects.{loaded, saved, save-Acts}
use operion.Store.Versions.{in_group, unpublished, unpublish_group}

-- Each file is named after the workflow that it holds.
abbrev pub IsKeyed : Dict Workflow → Type 0
IsKeyed m = (k : String) (x : Workflow) → lookup k m ≡ some x → x.id ≡ k

-- The version that publishing another workflow of the group leaves.
unfoldable pub retired : String → ℕ → Workflow → Workflow
retired group now x = if in_group group status_published x then stamp now (unpublished now x) else x

pub lookup-write_file :
    (k j : String) (v : Workflow) (m : Dict Workflow)
    → lookup j (write_file ".json" k v m) ≡ (if k == j then some v else lookup j m)
unfolding write_file
lookup-write_file k j v m = lookup-insert_by (lists_before ".json") k j v m

-- Whether the loop has passed `k`, if it had before or finds it in the list.
abbrev pub passes : String → Bool → List Workflow → Bool
passes k s [] = s
passes k s (x ∷ xs) = passes k (x.id == k || s) xs

-- The loop, watched at the file `k`; `m` is the folder as `PublishWorkflow` found it.
module _ (m : Dict Workflow) (group : String) (now : ℕ) (k : String) where
  abbrev pub Settled : World → Type 0
  Settled w = lookup k w.workflows ≡ Option.map (retired group now) (lookup k m)

  abbrev pub Progress : Bool → World → Type 0
  Progress true w = (w.now ≡ now) × Settled w
  Progress false w = (w.now ≡ now) × ((lookup k w.workflows ≡ lookup k m) ⊎ Settled w)

  Progress-other :
      (s : Bool) (x : Workflow) (w : World) (gs : List Bool)
      → x.id == k ≡ false
      → Progress s w
      → Progress s (record (saved (unpublished w.now x) w) { faults = gs })
  unfolding stamp unpublished
  Progress-other true x w gs q p =
      ground (arith, lookup-write_file x.id k (stamp w.now (unpublished w.now x)) w.workflows)
  Progress-other false x w gs q p =
      ground (arith, lookup-write_file x.id k (stamp w.now (unpublished w.now x)) w.workflows)

  Progress-settled :
      (s : Bool) (x : Workflow) (w : World)
      → lookup x.id m ≡ some x
      → in_group group status_published x ≡ false
      → x.id ≡ k
      → Progress s w
      → Progress true w
  unfolding retired
  Progress-settled true x w e g q p = p
  Progress-settled false x w e g q (n, p) = ground arith

  Progress-save :
      (s : Bool) (x : Workflow) (w : World) (gs : List Bool)
      → lookup x.id m ≡ some x
      → in_group group status_published x ≡ true
      → Progress s w
      → Progress (x.id == k || s) (record (saved (unpublished w.now x) w) { faults = gs })
  unfolding retired stamp unpublished
  Progress-save s x w gs e g p = elim (Bool-cases (x.id == k)) [
    | inl q ↦ rw q (
        ground (
          arith,
          lookup-write_file x.id k (stamp w.now (unpublished w.now x)) w.workflows,
          eq_iff x.id k,
        ))
    | inr q ↦ rw q (Progress-other s x w gs q p)
  ]

  Progress-skip :
      (s : Bool) (x : Workflow) (w : World)
      → lookup x.id m ≡ some x
      → in_group group status_published x ≡ false
      → Progress s w
      → Progress (x.id == k || s) w
  unfolding retired
  Progress-skip s x w e g p = elim (Bool-cases (x.id == k)) [
    | inl q ↦ rw q (Progress-settled s x w e g ((eq_iff x.id k).0 q) p)
    | inr q ↦ rw q p
  ]

  Progress-keep :
      (s : Bool) (w : World) (gs : List Bool)
      → Progress s w
      → Progress false (record w { faults = gs })
  Progress-keep true w gs (n, p) = (n, inr p)
  Progress-keep false w gs p = p

  -- A file that is not there is as it should be.
  Progress-gone :
      (s : Bool) (w : World) → lookup k m ≡ none → Progress s w → (w.now ≡ now) × Settled w
  Progress-gone true w gone p = p
  Progress-gone false w gone (n, inl e) = (n, rw (e, gone))
  Progress-gone false w gone (n, inr e) = (n, e)

  pub unpublish_group-Ensures :
      (s : Bool) (xs : List Workflow) (w : World)
      → All (λ x. lookup x.id m ≡ some x) xs
      → Progress s w
      → Ensures
          (λ _ w'. Progress (passes k s xs) w' × (Quiet w.faults → Quiet w'.faults))
          (λ e w'. Progress false w' × (¬ Quiet w.faults))
          (unpublish_group group xs w)
  unfolding unpublish_group
  unpublish_group-Ensures s [] w h p = returns (p, λ e. e)
  unpublish_group-Ensures s (x ∷ xs) w (h, hs) p =
      elim (Bool-cases (in_group group status_published x)) [
        | inl g ↦
            rw (g, unpublish_group)
              (act-Ensures (save (unpublished w.now x)) (λ _. unpublish_group group xs)
                (save-Acts (unpublished w.now x) w)
                (λ gs kept.
                  Ensures-weaken (λ _ w' q. (q.0, λ e. q.1 (kept e)))
                    (λ _ w' q. (q.0, λ e. q.1 (kept e)))
                    (unpublish_group-Ensures (x.id == k || s) xs
                      (record (saved (unpublished w.now x) w) { faults = gs }) hs
                      (Progress-save s x w gs h g p)))
                (λ gs n. (Progress-keep s w gs p, n)))
        | inr g ↦
            rw (g, unpublish_group)
              (unpublish_group-Ensures (x.id == k || s) xs w hs (Progress-skip s x w h g p))
      ]

pub any-keys :
    (k : String) (m : Dict Workflow) {y : Workflow}
    → lookup k m ≡ some y
    → any (λ j. j == k) (keys m) ≡ true
unfolding lookup
any-keys k [] e = cc
any-keys k ((j, x) ∷ m) e = elim (Bool-cases (j == k)) [
  | inl q ↦ rw q refl
  | inr q ↦ rw q (any-keys k m (rw (q, lookup) at e))
]

passes-true : (k : String) (xs : List Workflow) → passes k true xs ≡ true
passes-true k [] = refl
passes-true k (x ∷ xs) = elim (Bool-cases (x.id == k)) [
  | inl q ↦ rw q (passes-true k xs)
  | inr q ↦ rw q (passes-true k xs)
]

passes-loaded :
    (m : Dict Workflow) (k : String) (s : Bool) (ids : List String) {y : Workflow}
    → IsKeyed m
    → lookup k m ≡ some y
    → any (λ j. j == k) ids ≡ true
    → passes k s (loaded m ids) ≡ true
passes-loaded m k s [] keyed e h = cc
passes-loaded m k s (j ∷ ids) {y} keyed e h = elim (Bool-cases (j == k)) [
  | inl q ↦
      let here : lookup j m ≡ some y = rw ((eq_iff j k).0 q) e in
      rw here (rw ((eq_iff y.id k).1 (keyed k y e), passes) (passes-true k (loaded m ids)))
  | inr q ↦ elim (Option-cases (lookup j m)) [
    | inl gone ↦ rw gone (passes-loaded m k s ids keyed e (rw q at h))
    | inr (x, found) ↦ rw found (passes-loaded m k (x.id == k || s) ids keyed e (rw q at h))
  ]
]

pub loaded-All :
    (m : Dict Workflow) (ids : List String)
    → IsKeyed m
    → All (λ x. lookup x.id m ≡ some x) (loaded m ids)
loaded-All m [] keyed = tt
loaded-All m (j ∷ ids) keyed = elim (Option-cases (lookup j m)) [
  | inl gone ↦ rw gone (loaded-All m ids keyed)
  | inr (x, found) ↦
      rw found
        (subst (λ i. lookup i m ≡ some x) (sym (keyed j x found)) found, loaded-All m ids keyed)
]

-- Where the loop over all files has ended, every file is as it should be.
pub Progress-passed :
    (m : Dict Workflow) (group : String) (now : ℕ) (k : String) (w : World)
    → IsKeyed m
    → Progress m group now k (passes k false (loaded m (keys m))) w
    → (w.now ≡ now) × Settled m group now k w
Progress-passed m group now k w keyed p = elim (Option-cases (lookup k m)) [
  | inl gone ↦ Progress-gone m group now k (passes k false (loaded m (keys m))) w gone p
  | inr (x, found) ↦ rw (passes-loaded m k false (keys m) keyed found (any-keys k m found)) at p
]
