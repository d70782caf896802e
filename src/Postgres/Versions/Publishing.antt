-- ===== src/Postgres/Versions/Publishing.antt =====
-- Publishing over PostgreSQL, against its specification on versions
-- (pkg/persistence/postgresql/workflow.go, `PublishWorkflow`).
use mathlib.Core.Bool.{false≢true}
use operion.Base.{
  ℕ, String, Bool, ◌&&◌, ◌==◌, eq_iff, ◌≡◌, ◌⊎◌, inl, inr, refl, sym, ◌∙◌, Bool-cases,
  if◌then◌else◌, List, [], ◌∷◌, map, All, Option, none, some,
}
use operion.Models.Workflow.{Workflow, status_published, status_unpublished}
use operion.Models.Database.{WorkflowRow, Database}
use operion.Models.Event.{io_failed, workflow_not_found}
use operion.Store.{World, ◌>>=◌, ◌>>◌, io, require}
use operion.Store.Ensures.{Quiet, Ensures, raises, act-Ensures, Acts-Ensures, io-Reads}
use operion.Postgres.{Sorting, begin}
use operion.Postgres.Effects.{begin-Reads, exec-Acts, undone-Ensures}
use operion.Postgres.Workflows.{get_by_id}
use operion.Postgres.Workflows.Views.{found, get_by_id-Reads}
use operion.Postgres.Versions.{unpublished_row, published_row, change_rows, publish_workflow}

-- A version of a workflow, as publishing sees it.
pub record Version : Type 0 where
  pub id : String
  pub group : String
  pub status : String

unfoldable pub version_of : WorkflowRow → Version
version_of r = record { id = r.id; group = r.workflow_group_id; status = r.status }

abbrev pub versions : Database → List Version
versions d = map version_of d.workflows

-- The specification: of the group, the version `id` is published and no other one.
abbrev pub next_status : String → String → Version → String
next_status id group v =
    if v.id == id
    then status_published
    else if v.group == group && v.status == status_published
    then status_unpublished
    else v.status

unfoldable pub publish_version : String → String → Version → Version
publish_version id group v = record v { status = next_status id group v }

version_of-changed :
    (id group : String) (now : ℕ) (r : WorkflowRow)
    → version_of (published_row id now (unpublished_row group r))
      ≡ publish_version id group (version_of r)
unfolding version_of publish_version published_row unpublished_row
version_of-changed id group now r =
    elim (Bool-cases (r.workflow_group_id == group && r.status == status_published)) [
      | inl e ↦ elim (Bool-cases (r.id == id)) [ inl f ↦ rw (e, f) refl | inr f ↦ rw (e, f) refl ]
      | inr e ↦ elim (Bool-cases (r.id == id)) [ inl f ↦ rw (e, f) refl | inr f ↦ rw (e, f) refl ]
    ]

versions-changed :
    (id group : String) (now : ℕ) (rows : List WorkflowRow)
    → map version_of (map (published_row id now) (map (unpublished_row group) rows))
      ≡ map (publish_version id group) (map version_of rows)
versions-changed id group now [] = refl
versions-changed id group now (r ∷ rows) =
    rw (version_of-changed id group now r, versions-changed id group now rows) refl

-- A published version of the group is `id`.
abbrev pub OnlyOne : String → String → List Version → Type 0
OnlyOne id group vs = All (λ v. v.group ≡ group → v.status ≡ status_published → v.id ≡ id) vs

published_differs : Path String status_unpublished status_published → ⊥
published_differs e = false≢true ((eq_iff status_unpublished status_published).1 e)

publish_version-OnlyOne :
    (id group : String) (vs : List Version) → OnlyOne id group (map (publish_version id group) vs)
unfolding publish_version
publish_version-OnlyOne id group [] = tt
publish_version-OnlyOne id group (v ∷ vs) = (alone, publish_version-OnlyOne id group vs)
  where
    alone : v.group ≡ group → next_status id group v ≡ status_published → v.id ≡ id
    alone g s = elim (Bool-cases (v.id == id)) [
      | inl b ↦ (eq_iff v.id id).0 b
      | inr b ↦ elim (Bool-cases (v.status == status_published)) [
        | inl c ↦ absurd (published_differs (rw (b, (eq_iff v.group group).1 g, c) at s))
        | inr c ↦ absurd (
            false≢true (
              sym c
              ∙ (eq_iff v.status status_published).1 (rw (b, (eq_iff v.group group).1 g, c) at s)))
      ]
    ]

module _ (sort : Sorting) (id : String) (w : World) where
  -- Why publishing fails.
  abbrev pub Fails : Type 0
  Fails = (¬ Quiet w.faults) ⊎ (found sort id w.database ≡ none)

  -- The tables after the call.
  abbrev pub PublishedIn : World → Type 0
  PublishedIn w' =
      (x : Workflow) × (found sort id w.database ≡ some x)
      × (versions w'.database ≡ map (publish_version id x.workflow_group_id) (versions w.database))
      × OnlyOne id x.workflow_group_id (versions w'.database)
      × (w'.database.nodes ≡ w.database.nodes)
      × (w'.database.connections ≡ w.database.connections)

  changed :
      (x : Workflow)
      → map version_of (
          map
            (published_row id w.now)
            (map (unpublished_row x.workflow_group_id) w.database.workflows))
        ≡ map (publish_version id x.workflow_group_id) (versions w.database)
  changed x = versions-changed id x.workflow_group_id w.now w.database.workflows

  statements-Ensures :
      (gs : List Bool) (x : Workflow)
      → (Quiet w.faults → Quiet gs)
      → found sort id w.database ≡ some x
      → Ensures
          (λ _ w'. PublishedIn w')
          (λ e w'. Fails)
          ((change_rows (λ now. unpublished_row x.workflow_group_id)
              >> (change_rows (λ now. published_row id now) >> io io_failed))
            (record w { faults = gs }))
  statements-Ensures gs x k f =
      act-Ensures (change_rows _) _ (exec-Acts _ _)
        (λ hs l.
          act-Ensures (change_rows _) _ (exec-Acts _ _)
            (λ is m.
              Acts-Ensures (io-Reads io_failed _)
                (λ js _. (
                  x,
                  f,
                  changed x,
                  rw (changed x) (publish_version-OnlyOne id x.workflow_group_id _),
                  refl,
                  refl,
                ))
                (λ js n. inl (λ e. n (m (l (k e))))))
            (λ is n. inl (λ e. n (l (k e)))))
        (λ hs n. inl (λ e. n (k e)))

  -- Publishing an existing workflow over PostgreSQL changes the versions as the specification says:
  -- the workflow is published, and the other published versions of its group are not any longer, so
  -- that it is the only one; nodes and connections stay. If it fails, something has failed outside
  -- or there is no such workflow, and nothing has changed.
  pub publish_workflow-OnlyOne :
      Ensures
        (λ _ w'. PublishedIn w')
        (λ e w'. Fails × (w'.database ≡ w.database))
        (publish_workflow sort id w)
  unfolding publish_workflow
  publish_workflow-OnlyOne =
      act-Ensures begin _ (begin-Reads w)
        (λ gs k. undone-Ensures w.database _ _ (
          act-Ensures (get_by_id sort id) _ (get_by_id-Reads sort id _)
            (λ hs l. required hs (λ e. l (k e)) (found sort id w.database) refl)
            (λ hs n. inl (λ e. n (k e)))))
        (λ gs n. (inl n, refl))
    where
      required :
          (hs : List Bool)
          → (Quiet w.faults → Quiet hs)
          → (o : Option Workflow) → found sort id w.database ≡ o
          → Ensures
              (λ _ w'. PublishedIn w')
              (λ e w'. Fails)
              ((require (workflow_not_found id) o >>= λ x.
                  change_rows (λ now. unpublished_row x.workflow_group_id)
                  >> (change_rows (λ now. published_row id now) >> io io_failed))
                (record w { faults = hs }))
      required hs k none f = raises (inr f)
      required hs k (some x) f = statements-Ensures hs x k f
