-- ===== src/Models/Database.antt =====
-- The tables of the PostgreSQL database (pkg/persistence/postgresql/migration.go, and the migrations
-- of pkg/providers/*/persistence/postgres.go).
-- A JSONB column holds the value that its text stands for; the columns `position_x` and
-- `position_y`, which nothing reads, are left out.
use operion.Base.{◌*◌, ◌/◌, ℕ, zero, String, Dict, List, [], Option}
use operion.Models.Value.{Value}
use operion.Models.Workflow.{WorkflowNode}
use operion.Models.Execution.{ExecutionContext, NodeInputState}
use operion.Models.Source.{Schedule, WebhookSource, KafkaSource}

-- A row of `workflows`.
pub record WorkflowRow : Type 0 where
  pub id : String
  pub name : String
  pub description : String
  pub variables : Dict Value
  pub status : String
  pub metadata : Dict Value
  pub owner : String
  pub workflow_group_id : String
  pub published_at : Option ℕ
  pub created_at : ℕ
  pub updated_at : ℕ
  pub deleted_at : Option ℕ

-- A row of `workflow_nodes`; `node` holds the columns that are fields of the node.
pub record NodeRow : Type 0 where
  pub workflow_id : String
  pub node : WorkflowNode
  pub created_at : ℕ
  pub updated_at : ℕ

-- A row of `workflow_connections`.
pub record ConnectionRow : Type 0 where
  pub workflow_id : String
  pub id : String
  pub source_node_id : String
  pub source_port : String
  pub target_node_id : String
  pub target_port : String
  pub created_at : ℕ
  pub updated_at : ℕ

-- A script that changes the schema, under its version.
pub record Migration : Type 0 where
  pub version : ℕ
  pub script : String

-- The rows of the other tables have the columns of their structs.
pub record Database : Type 0 where
  -- The time that a column of type TIMESTAMP keeps of a time that is written to it.
  pub keeps : ℕ → ℕ
  pub workflows : List WorkflowRow
  pub nodes : List NodeRow
  pub connections : List ConnectionRow
  pub contexts : List ExecutionContext
  pub input_states : List NodeInputState
  pub schedules : List Schedule
  pub webhook_sources : List WebhookSource
  pub kafka_sources : List KafkaSource
  -- The versions in `schema_migrations`, and the scripts that have been executed; the oldest first.
  pub schema_migrations : List ℕ
  pub scripts : List String
  -- How many transactions were begun that are neither committed nor rolled back.
  pub abandoned : ℕ

-- A column that drops the nanoseconds.
abbrev pub whole_microseconds : ℕ → ℕ
whole_microseconds t = t / 1000 * 1000

unfoldable pub empty_database : Database
empty_database = record {
  keeps = whole_microseconds;
  workflows = [];
  nodes = [];
  connections = [];
  contexts = [];
  input_states = [];
  schedules = [];
  webhook_sources = [];
  kafka_sources = [];
  schema_migrations = [];
  scripts = [];
  abandoned = zero;
}
