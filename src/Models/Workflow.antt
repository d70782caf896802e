-- ===== src/Models/Workflow.antt =====
-- Workflows, their nodes and connections (pkg/models/workflow.go and node.go).
use operion.Base.{ℕ, String, Bool, ◌==◌, Dict, List, Option}
use operion.Models.Value.{Value}

abbrev pub category_action : String
category_action = "action"

abbrev pub category_trigger : String
category_trigger = "trigger"

pub record Connection : Type 0 where
  pub id : String
  pub source_port : String
  pub target_port : String

pub record WorkflowNode : Type 0 where
  pub id : String
  pub type : String
  pub category : String
  pub config : Dict Value
  pub name : String
  pub enabled : Bool
  pub source_id : Option String
  pub provider_id : Option String
  pub event_type : Option String

unfoldable pub is_action_node : WorkflowNode → Bool
is_action_node n = n.category == category_action

unfoldable pub is_trigger_node : WorkflowNode → Bool
is_trigger_node n = n.category == category_trigger

abbrev pub status_draft : String
status_draft = "draft"

abbrev pub status_published : String
status_published = "published"

abbrev pub status_unpublished : String
status_unpublished = "unpublished"

pub record Workflow : Type 0 where
  pub id : String
  pub name : String
  pub description : String
  pub status : String
  pub workflow_group_id : String
  pub nodes : List WorkflowNode
  pub connections : List Connection
  pub variables : Dict Value
  pub metadata : Dict Value
  pub owner : String
  pub created_at : ℕ
  pub updated_at : ℕ
  pub published_at : Option ℕ
  pub deleted_at : Option ℕ

-- A trigger node that matches a source event.
pub record TriggerNodeMatch : Type 0 where
  pub workflow_id : String
  pub trigger_node : WorkflowNode
