-- ===== src/Providers/Webhook/Passing.antt =====
-- From a webhook request to the output of its trigger node (pkg/providers/webhook/server.go,
-- `enrichEventData`, and pkg/nodes/trigger/webhook.go, `Execute`).
use Prim.Native.String
use Prim.Native.String.{[]}
use operion.Base.{ℕ, String, ◌≡◌, refl, List, Dict, lookup, some}
use operion.Models.Value.{Value, nil, object, object_of}
use operion.Models.Execution.{NodeResult, ExecutionContext}
use operion.Store.{ok}
use operion.Nodes.Common.{output_port_success, success_on}
use operion.Nodes.Trigger.{external_port}
use operion.Nodes.Trigger.Webhook.{WebhookTriggerNode, execute_webhook_trigger, webhook_output}
use operion.Providers.Webhook.Server.{entry, WebhookRequest, Library, enrich_event_data}

-- Given the data that the server publishes for a request, a webhook trigger node passes on the
-- body, and nil for the headers, the method, the address and the query.
pub execute_webhook_trigger-enrich_event_data :
    (l : Library) (now : ℕ) (data_ : Dict Value) (r : WebhookRequest) (n : WebhookTriggerNode)
    (c : ExecutionContext) (inputs : Dict NodeResult) (input : NodeResult)
    → lookup external_port inputs ≡ some input
    → input.fields ≡ enrich_event_data l now data_ r
    → execute_webhook_trigger n c inputs
      ≡ ok (
          success_on n.id output_port_success (
            entry "headers" nil (
              entry "body"
                (object (object_of data_))
                (entry "method" nil (entry "url" nil (entry "query" nil List.[]))))))
unfolding execute_webhook_trigger webhook_output enrich_event_data lookup
execute_webhook_trigger-enrich_event_data l now data_ r n c inputs input h e = simp (h, e) refl
