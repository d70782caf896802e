-- ===== src/Nodes/Trigger/Webhook.antt =====
-- The webhook trigger node (pkg/nodes/trigger/webhook.go).
use operion.Base.{
  String, Bool, false, not, ◌==◌, if◌then◌else◌, [], ◌∷◌, any, Dict, lookup, Option, none, some,
}
use operion.Models.Value.{Value, as_string, as_object}
use operion.Models.Execution.{NodeResult, ExecutionContext}
use operion.Models.Event.{Error, field_required, invalid_config}
use operion.Store.{Result, ok, err}
use operion.Registry.{Node}
use operion.Nodes.Common.{output_port_success, success_on, text_or}
use operion.Nodes.HttpRequest.{headers_or_none}
use operion.Nodes.Trigger.{external_port, trigger_error, entry, trigger_requirements, is_missing}

pub record WebhookTriggerNode : Type 0 where
  pub id : String
  pub webhook_path : String
  pub headers : Dict String
  pub method : String

abbrev made : String → Dict Value → Option String → Result WebhookTriggerNode
made id config none = err (field_required "webhook_path")
made id config (some path) = ok (record {
  id = id;
  webhook_path = path;
  headers = headers_or_none (as_object (lookup "headers" config));
  method = text_or "POST" (as_string (lookup "method" config));
})

-- `NewWebhookTriggerNode`.
unfoldable pub new_webhook_trigger_node : String → Dict Value → Result WebhookTriggerNode
new_webhook_trigger_node id config = made id config (as_string (lookup "webhook_path" config))

-- The fields that the node takes over from the event's data.
unfoldable pub webhook_output : Dict Value → Dict Value
webhook_output webhook_data =
    ("headers", entry "headers" webhook_data)
    ∷ ("body", entry "body" webhook_data)
    ∷ ("method", entry "method" webhook_data)
    ∷ ("url", entry "url" webhook_data)
    ∷ ("query", entry "query" webhook_data)
    ∷ []

abbrev passed : WebhookTriggerNode → Option NodeResult → Dict NodeResult
passed n none = trigger_error n.id "external input not found"
passed n (some input) = success_on n.id output_port_success (webhook_output input.fields)

-- `Execute`.
unfoldable pub execute_webhook_trigger :
    WebhookTriggerNode → ExecutionContext → Dict NodeResult → Result (Dict NodeResult)
execute_webhook_trigger n c inputs = ok (passed n (lookup external_port inputs))

abbrev invalid_method : Option String → Bool
invalid_method none = false
invalid_method (some method) =
    not (any (λ allowed. method == allowed) ("GET" ∷ "POST" ∷ "PUT" ∷ "DELETE" ∷ "PATCH" ∷ []))

-- `Validate`.
unfoldable pub validate_webhook_trigger : Dict Value → Option Error
validate_webhook_trigger config =
    if is_missing (as_string (lookup "webhook_path" config))
    then some (field_required "webhook_path")
    else if invalid_method (as_string (lookup "method" config))
    then some (invalid_config "method")
    else none

-- The node as the worker uses it.
unfoldable pub webhook_trigger_node : WebhookTriggerNode → Node
webhook_trigger_node n = record {
  input_requirements = some trigger_requirements;
  execute = execute_webhook_trigger n;
}
