-- ===== src/Providers/Kafka/Passing.antt =====
-- From a Kafka message to the output of its trigger node (pkg/providers/kafka/provider.go,
-- `processMessage`, and pkg/nodes/trigger/kafka.go, `Execute`).
use operion.Base.{ℕ, ◌≡◌, refl, [], Dict, lookup, some}
use operion.Models.Value.{nil, other, string, int32, int64, object, object_of}
use operion.Models.Execution.{NodeResult, ExecutionContext}
use operion.Store.{ok}
use operion.Nodes.Common.{output_port_success, success_on}
use operion.Nodes.Trigger.{external_port}
use operion.Nodes.Trigger.Kafka.{KafkaTriggerNode, execute_kafka_trigger, kafka_output}
use operion.Providers.Webhook.Server.{entry}
use operion.Providers.Kafka.Consumers.{Message, Library, message_event_data, header_map}

-- Given the data that the provider publishes for a message, a Kafka trigger node passes on the
-- topic, the partition, the offset, the headers and the time, and nil for the key and the message.
pub execute_kafka_trigger-message_event_data :
    (l : Library) (now : ℕ) (x : Message) (n : KafkaTriggerNode) (c : ExecutionContext)
    (inputs : Dict NodeResult) (input : NodeResult)
    → lookup external_port inputs ≡ some input
    → input.fields ≡ message_event_data l now x
    → execute_kafka_trigger n c inputs
      ≡ ok (
          success_on n.id output_port_success (
            entry "topic" (string x.topic) (
              entry "partition" (int32 x.partition) (
                entry "offset" (int64 x.offset) (
                  entry "key" nil (
                    entry "message" nil (
                      entry "headers" (object (object_of (header_map x.message_headers []))) (
                        entry "timestamp" (string (l.rfc3339 now)) (entry "config" other [])))))))))
unfolding execute_kafka_trigger kafka_output message_event_data lookup
execute_kafka_trigger-message_event_data l now x n c inputs input h e = simp (h, e) refl
