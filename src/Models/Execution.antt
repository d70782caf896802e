-- ===== src/Models/Execution.antt =====
-- Executions: node results, the execution context, and the coordination of a node's inputs
-- (pkg/models/node.go, execution_context.go and node_requirements.go).
use operion.Base.{ℕ, String, Dict, List, [], ◌∷◌, Option, none}
use operion.Models.Value.{Value}

abbrev pub node_success : String
node_success = "success"

abbrev pub node_error : String
node_error = "error"

pub record NodeResult : Type 0 where
  pub node_id : String
  pub fields : Dict Value
  pub status : String
  pub timestamp : ℕ
  pub error : String

abbrev pub execution_running : String
execution_running = "running"

pub record ExecutionContext : Type 0 where
  pub id : String
  pub workflow_id : String
  pub status : String
  pub node_results : Dict NodeResult
  pub trigger_data : Dict Value
  pub variables : Dict Value
  pub metadata : Dict Value
  pub error_message : String
  pub created_at : ℕ
  pub completed_at : Option ℕ

abbrev pub wait_all : String
wait_all = "all"

abbrev pub wait_any : String
wait_any = "any"

abbrev pub wait_first : String
wait_first = "first"

pub record InputRequirements : Type 0 where
  pub required_ports : List String
  pub optional_ports : List String
  pub wait_mode : String
  pub timeout : Option ℕ

unfoldable pub default_input_requirements : InputRequirements
default_input_requirements = record {
  required_ports = "main" ∷ [];
  optional_ports = [];
  wait_mode = wait_any;
  timeout = none;
}

pub record NodeInputState : Type 0 where
  pub node_id : String
  pub execution_id : String
  pub node_execution_id : String
  pub received_inputs : Dict NodeResult
  pub requirements : InputRequirements
  pub created_at : ℕ
  pub last_updated_at : ℕ
