-- ===== src/Postgres/Migrations/Runs.antt =====
-- Which migrations a run applies (pkg/persistence/sqlbase/migration.go, `RunMigrations`).
use mathlib.Core.List.{append_assoc, append-nil, map-append}
use operion.Base.{
  ℕ, ltb, eqb, any, Bool, true, false, ◌≡◌, refl, sym, ap, subst, ◌∙◌, inl, inr, Bool-cases, List,
  [], ◌∷◌, ◌++◌, map,
}
use operion.Models.Event.{io_failed}
use operion.Models.Database.{Migration, Database}
use operion.Store.{World, Outcome, M, ◌>>◌, io, pure}
use operion.Store.Ensures.{
  Quiet, Ensures, returns, Ensures-weaken, act-Ensures, Acts-Ensures, >>=-Ensures, io-Reads,
}
use operion.Postgres.{begin}
use operion.Postgres.Effects.{
  begin-Reads, select-Reads, exec-Acts, exec_unless-Acts, undone-Ensures,
}
use operion.Postgres.Migrations.{
  maximum, get_target_schema_version, get_current_schema_version, apply_migration, is_recorded,
  execute_script, record_version, apply_migrations, apply_then, apply_above, run_migrations,
}
use operion.Postgres.Migrations.Pending.{
  pending, applied, Distinct, applied-append, any-append-false, below_maximum, any-split,
  nothing_pending, applied-nil, applied-settles,
}

abbrev pub Applied : Migration → World → World → Type 0
Applied m w w' = (w'.database ≡ applied (m ∷ []) w.database) × (Quiet w.faults → Quiet w'.faults)

apply_migration-Ensures :
    (m : Migration) (w : World)
    → is_recorded m w.database ≡ false
    → Ensures
        (λ _ w'. Applied m w w')
        (λ e w'. (¬ Quiet w.faults) × (w'.database ≡ w.database))
        (apply_migration m w)
unfolding apply_migration execute_script record_version applied
apply_migration-Ensures m w v =
    act-Ensures begin _ (begin-Reads w)
      (λ gs k. undone-Ensures w.database _ _ (
        act-Ensures (execute_script m) (λ _. record_version m >> io io_failed) (exec-Acts _ _)
          (λ hs l.
            act-Ensures (record_version m) (λ _. io io_failed) (exec_unless-Acts _ _ _ v)
              (λ is m.
                Acts-Ensures (io-Reads io_failed _) (λ js n. (refl, λ e. n (m (l (k e)))))
                  (λ js n. λ e. n (m (l (k e)))))
              (λ is n. λ e. n (l (k e))))
          (λ hs n. λ e. n (k e))))
      (λ gs n. (n, refl))

-- Of the migrations some first ones have been applied.
abbrev pub AppliedSome : List Migration → Database → World → Type 0
AppliedSome ms d w =
    (xs : List Migration) × (ys : List Migration) × (ms ≡ xs ++ ys) × (w.database ≡ applied xs d)

module _ (from : ℕ) (d : Database) (start : World)
    (unused : (n : ℕ) → ltb from n ≡ true → any (λ v. eqb v n) d.schema_migrations ≡ false) where
  -- The versions that have been applied are among those that have been seen.
  abbrev Seen : List ℕ → List Migration → Type 0
  Seen seen xs = (p : ℕ → Bool) → any p seen ≡ false → any p (map (λ m. m.version) xs) ≡ false

  -- All of `xs` has been applied, or a part of it because something has failed.
  abbrev Run : List Migration → World → M (Unit {0}) → Type 0
  Run xs w m =
      Ensures (λ _ w'. w'.database ≡ applied xs d)
        (λ e w'. (¬ Quiet start.faults) × AppliedSome xs d w') (m w)

  take :
      (xs ys : List Migration) (m : Migration) (rest : M (Unit {0})) (w : World)
      → w.database ≡ applied xs d
      → (Quiet start.faults → Quiet w.faults)
      → is_recorded m (applied xs d) ≡ false
      → ((v : World)
          → v.database ≡ applied (xs ++ (m ∷ [])) d
          → (Quiet start.faults → Quiet v.faults)
          → Run ((xs ++ (m ∷ [])) ++ ys) v rest)
      → Run (xs ++ (m ∷ ys)) w (apply_migration m >> rest)
  take xs ys m rest w e k r next =
      >>=-Ensures (apply_migration m) (λ _. rest) w
        (Ensures-weaken (λ _ v q. q) (λ x v q. (λ f. q.0 (k f), (xs, m ∷ ys, refl, q.1 ∙ e)))
          (apply_migration-Ensures m w (ap (is_recorded m) e ∙ r)))
        (λ _ v q.
          subst (λ zs. Run zs v rest) (append_assoc xs (m ∷ []) ys)
            (next v (q.0 ∙ ap (applied (m ∷ [])) e ∙ applied-append xs (m ∷ []) d)
              (λ f. q.1 (k f))))

  -- A version that is pending and that has not been seen is not recorded.
  unrecorded :
      (seen : List ℕ) (xs : List Migration) (m : Migration)
      → ltb from m.version ≡ true
      → any (λ v. eqb v m.version) seen ≡ false
      → Seen seen xs
      → is_recorded m (applied xs d) ≡ false
  unfolding applied
  unrecorded seen xs m b p s =
      any-append-false (λ v. eqb v m.version) d.schema_migrations (map (λ n. n.version) xs)
        (unused m.version b) (s (λ v. eqb v m.version) p)

  Seen-snoc :
      (seen : List ℕ) (xs : List Migration) (m : Migration)
      → Seen seen xs
      → Seen (seen ++ (m.version ∷ [])) (xs ++ (m ∷ []))
  Seen-snoc seen xs m s p f =
      let (g, h) = any-split p seen (m.version ∷ []) f in
      rw map-append (any-append-false p (map (λ n. n.version) xs) (m.version ∷ []) (s p g) h)

  pub apply_migrations-Ensures :
      (seen : List ℕ) (xs ms : List Migration) (w : World)
      → w.database ≡ applied xs d
      → (Quiet start.faults → Quiet w.faults)
      → Distinct seen ms
      → Seen seen xs
      → Run (xs ++ pending from ms) w (apply_migrations from ms)
  unfolding apply_migrations
  apply_migrations-Ensures seen xs [] w e k h s = returns (rw append-nil e)
  apply_migrations-Ensures seen xs (m ∷ ms) w e k (p, h) s =
      elim (Bool-cases (ltb from m.version)) [
        | inl b ↦ subst (case) (sym b) (
            take xs (pending from ms) m (apply_migrations from ms) w e k
              (unrecorded seen xs m b p s)
              (λ v f l.
                apply_migrations-Ensures (seen ++ (m.version ∷ [])) (xs ++ (m ∷ [])) ms v f l h
                  (Seen-snoc seen xs m s)))
        | inr b ↦ subst (case) (sym b) (
            apply_migrations-Ensures (seen ++ (m.version ∷ [])) xs ms w e k h
              (λ q f. s q (any-split q seen (m.version ∷ []) f).0))
      ]
    where
      case : Bool → Type 0
      case c =
          Run (xs ++ (elim c [ true ↦ m ∷ pending from ms | false ↦ pending from ms ])) w
            (apply_then c m (apply_migrations from ms))

-- All that is pending has been applied, and nothing else is pending; or a part of it has been, after
-- an error that needs a fault.
abbrev pub Migrated : List Migration → World → Outcome (Unit {0}) → Type 0
Migrated ms w =
    Ensures
      (λ _ w'.
        (w'.database ≡ applied (pending (maximum w.database.schema_migrations) ms) w.database)
        × (pending (maximum w'.database.schema_migrations) ms ≡ []))
      (λ e w'.
        (¬ Quiet w.faults)
        × AppliedSome (pending (maximum w.database.schema_migrations) ms) w.database w')

all_applied :
    (ms : List Migration) (d : Database) (w : World)
    → w.database ≡ applied (pending (maximum d.schema_migrations) ms) d
    → (w.database ≡ applied (pending (maximum d.schema_migrations) ms) d)
      × (pending (maximum w.database.schema_migrations) ms ≡ [])
all_applied ms d w e =
    (e, subst (λ b. pending (maximum b.schema_migrations) ms ≡ []) (sym e) (applied-settles d ms))

apply_above-Ensures :
    (ms : List Migration) (start w : World)
    → w.database ≡ start.database
    → (Quiet start.faults → Quiet w.faults)
    → Distinct [] ms
    → Migrated ms start (apply_above ms (maximum start.database.schema_migrations) w)
unfolding get_target_schema_version
apply_above-Ensures ms start w e k h =
    elim (Bool-cases (ltb current (get_target_schema_version ms))) [
      | inl b ↦ subst case (sym b) (
          Ensures-weaken (λ _ v q. all_applied ms start.database v q) (λ x v q. q)
            (apply_migrations-Ensures current start.database start
              (λ n. below_maximum n start.database.schema_migrations) [] [] ms w
              (e ∙ sym (applied-nil start.database)) k h (λ p f. f)))
      | inr b ↦
          subst case (sym b) (returns (all_applied ms start.database w (e ∙ sym (none_applied b))))
    ]
  where
    current : ℕ
    current = maximum start.database.schema_migrations

    case : Bool → Type 0
    case c =
        Migrated ms start
          (elim c as (λ _. M (Unit {0})) [ true ↦ apply_migrations current ms | false ↦ pure tt ] w)

    none_applied :
        ltb current (get_target_schema_version ms) ≡ false
        → applied (pending current ms) start.database ≡ start.database
    none_applied b =
        ap (λ xs. applied xs start.database) (nothing_pending current ms b)
        ∙ applied-nil start.database

-- Running migrations whose versions are distinct executes, in their order, the scripts of those
-- whose version is above the highest recorded one and records their versions, and then no migration
-- is pending. It fails only if a fault is to come, and then
-- exactly some first ones of the pending migrations have been applied, each of them whole.
pub run_migrations-applied :
    (ms : List Migration) (w : World) → Distinct [] ms → Migrated ms w (run_migrations ms w)
unfolding run_migrations get_current_schema_version
run_migrations-applied ms w h =
    act-Ensures (io io_failed) _ (io-Reads io_failed w)
      (λ gs k.
        act-Ensures get_current_schema_version (λ current. apply_above ms current)
          (select-Reads (λ d. maximum d.schema_migrations) _)
          (λ hs l. apply_above-Ensures ms w _ refl (λ f. l (k f)) h)
          (λ hs n. (λ f. n (k f), nothing_applied)))
      (λ gs n. (n, nothing_applied))
  where
    nothing_applied :
        (xs : List Migration) × (ys : List Migration) × (pending
            (maximum w.database.schema_migrations)
            ms
          ≡ xs ++ ys)
        × (w.database ≡ applied xs w.database)
    nothing_applied = ([], _, refl, sym (applied-nil w.database))
