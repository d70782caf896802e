-- ===== src/Tests/Databases.antt =====
-- Workflows in a PostgreSQL database (pkg/persistence/postgresql).
use mathlib.Core.List.{Perm}
use mathlib.Core.List.Perm
use operion.Base.{
  ℕ, String, Bool, true, ◌≡◌, refl, leb, Bool-cases, inl, inr, if◌then◌else◌, List, [], ◌∷◌, none,
}
use operion.Models.Workflow.{
  Workflow, WorkflowNode, status_draft, status_published, category_trigger,
}
use operion.Models.Source.{no_sources}
use operion.Models.Database.{WorkflowRow, Migration, empty_database}
use operion.Store.{World}
use operion.Store.Ensures.{Ensures}
use operion.Postgres.{Sorting}
use operion.Postgres.Saving.{save}
use operion.Postgres.Saving.Rows.{SavedAs, Unsaved}
use operion.Postgres.Saving.Success.{Storable}
use operion.Postgres.Saving.RoundTrip.{Arranges, ReadsBack, save-get_by_id}
use operion.Postgres.Migrations.{run_migrations}
use operion.Postgres.Migrations.Runs.{Migrated, run_migrations-applied}
use operion.Postgres.Versions.{publish_workflow}
use operion.Postgres.Versions.Publishing.{PublishedIn, Fails, publish_workflow-OnlyOne}

-- Insertion into a list that a key sorts, before the first element that `precedes` keeps behind.
insert_by_key : {A : Type 0} → (A → A → Bool) → A → List A → List A
insert_by_key precedes x [] = x ∷ []
insert_by_key precedes x (y ∷ ys) =
    let rest = insert_by_key precedes x ys in if precedes x y then x ∷ y ∷ ys else y ∷ rest

sort_by_key : {A : Type 0} → (A → A → Bool) → List A → List A
unfolding insert_by_key
sort_by_key precedes [] = []
sort_by_key precedes (x ∷ xs) = insert_by_key precedes x (sort_by_key precedes xs)

insert_by_key-Perm :
    {A : Type 0} (precedes : A → A → Bool) (x : A) (ys : List A)
    → Perm (insert_by_key precedes x ys) (x ∷ ys)
unfolding insert_by_key
insert_by_key-Perm precedes x [] = Perm.refl (x ∷ [])
insert_by_key-Perm precedes x (y ∷ ys) = elim (Bool-cases (precedes x y)) [
  | inl e ↦ rw e (Perm.refl (x ∷ y ∷ ys))
  | inr e ↦ rw e (Perm.trans (Perm.cons y (insert_by_key-Perm precedes x ys)) (Perm.swap x y ys))
]

sort_by_key-Perm :
    {A : Type 0} (precedes : A → A → Bool) (xs : List A) → Perm (sort_by_key precedes xs) xs
unfolding sort_by_key
sort_by_key-Perm precedes [] = Perm.refl []
sort_by_key-Perm precedes (x ∷ xs) =
    Perm.trans (insert_by_key-Perm precedes x (sort_by_key precedes xs))
      (Perm.cons x (sort_by_key-Perm precedes xs))

abbrev insertion : Sorting
insertion = record {
  ascending = λ f xs. sort_by_key (λ x y. leb (f x) (f y)) xs;
  descending = λ f xs. sort_by_key (λ x y. leb (f y) (f x)) xs;
}

insertion-Arranges : Arranges insertion
insertion-Arranges = record {
  ascending-Perm = λ f xs. sort_by_key-Perm (λ x y. leb (f x) (f y)) xs;
}

abbrev row : String → String → ℕ → WorkflowRow
row id status created_at = record {
  id = id;
  name = "Daily report";
  description = "";
  variables = [];
  status = status;
  metadata = [];
  owner = "";
  workflow_group_id = "report";
  published_at = none;
  created_at = created_at;
  updated_at = created_at;
  deleted_at = none;
}

abbrev node : String → WorkflowNode
node id = record {
  id = id;
  type = "trigger:webhook";
  category = category_trigger;
  config = [];
  name = id;
  enabled = true;
  source_id = none;
  provider_id = none;
  event_type = none;
}

-- The first version is published.
abbrev process : World
process = record {
  root = "";
  workflows = [];
  contexts = [];
  input_states = [];
  bus = [];
  sources = no_sources;
  database = record empty_database {
    workflows = row "v1" status_published 1 ∷ row "v2" status_draft 2 ∷ [];
  };
  now = 9;
  ids = 0;
  faults = [];
}

abbrev workflow : Workflow
workflow = record {
  id = "v2";
  name = "Report of the day";
  description = "";
  status = status_draft;
  workflow_group_id = "report";
  nodes = node "start" ∷ node "end" ∷ [];
  connections = record { id = "c"; source_port = "start:success"; target_port = "end:input" } ∷ [];
  variables = [];
  metadata = [];
  owner = "";
  created_at = 2;
  updated_at = 2;
  published_at = none;
  deleted_at = none;
}

abbrev uuid : ℕ → String
uuid n = "generated"

publish_workflow-OnlyOne_example :
    Ensures
      (λ _ w'. PublishedIn insertion "v2" process w')
      (λ e w'. Fails insertion "v2" process × (w'.database ≡ process.database))
      (publish_workflow insertion "v2" process)
publish_workflow-OnlyOne_example = publish_workflow-OnlyOne insertion "v2" process

save-get_by_id_example :
    Ensures
      (λ y w'. SavedAs workflow 9 y × ReadsBack insertion y process.database w')
      (λ e w'. Unsaved workflow process e w' × ¬ ((process.faults ≡ []) × Storable workflow))
      (save uuid workflow process)
save-get_by_id_example = save-get_by_id insertion insertion-Arranges uuid workflow process refl

-- The loop takes the newer migration first.
abbrev scripts : List Migration
scripts =
    record { version = 3; script = "CREATE INDEX" }
    ∷ record { version = 2; script = "ALTER TABLE" }
    ∷ record { version = 1; script = "CREATE TABLE" }
    ∷ []

abbrev installed : World
installed = record process {
  database = record empty_database { schema_migrations = 1 ∷ []; scripts = "CREATE TABLE" ∷ [] };
}

run_migrations-applied_example : Migrated scripts installed (run_migrations scripts installed)
run_migrations-applied_example = run_migrations-applied scripts installed (refl, (refl, (refl, tt)))
