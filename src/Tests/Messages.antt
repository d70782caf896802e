-- ===== src/Tests/Messages.antt =====
-- The consumers of Kafka messages (pkg/providers/kafka) and their trigger node.
use operion.Base.{String, true, List, ◌≡◌, ◌==◌, refl, [], ◌∷◌, filter, lookup, none, some}
use operion.Models.Value.{nil, other, string, int32, int64, object, object_of}
use operion.Models.Execution.{ExecutionContext, NodeResult, execution_running, node_success}
use operion.Models.Source.{KafkaSource}
use operion.Store.{ok}
use operion.Nodes.Common.{output_port_success, success_on}
use operion.Nodes.Trigger.Kafka.{KafkaTriggerNode, execute_kafka_trigger}
use operion.Providers.Webhook.Server.{entry}
use operion.Providers.Kafka.Consumers.{
  Message, Library, managers_for, message_event_data, header_map,
}
use operion.Providers.Kafka.Consumers.Grouping.{sources_at, by_id_or_none, managers_for-by_id}
use operion.Providers.Kafka.Passing.{execute_kafka_trigger-message_event_data}

abbrev kafka_source : String → String → KafkaSource
kafka_source id connection = record {
  id = id;
  connection_details_id = connection;
  connection_details = record {
    topic = "orders";
    consumer_group = "";
    brokers = "localhost:9092" ∷ [];
    config = none;
  };
  json_schema = [];
  configuration = [];
  created_at = 1;
  updated_at = 1;
  active = true;
}

abbrev kafka_sources : List KafkaSource
kafka_sources = kafka_source "s" "c" ∷ kafka_source "t" "d" ∷ kafka_source "u" "c" ∷ []

managers_for-by_id_example :
    sources_at "c" (managers_for kafka_sources [])
    ≡ by_id_or_none (filter (λ s. s.connection_details_id == "c") kafka_sources)
managers_for-by_id_example = managers_for-by_id "c" kafka_sources []

abbrev library : Library
library = record { parse_json = λ _. none; validate_schema = λ _ _. none; rfc3339 = λ _. "" }

abbrev message : Message
message = record {
  topic = "orders";
  partition = 2;
  offset = 7;
  key = "k";
  value = "new order";
  message_headers = ("trace", "1") ∷ [];
}

abbrev kafka_node : KafkaTriggerNode
kafka_node = record {
  id = "start";
  topic = "orders";
  consumer_group = "reports";
  brokers = "localhost:9092" ∷ [];
}

abbrev context : ExecutionContext
context = record {
  id = "execution";
  workflow_id = "v1";
  status = execution_running;
  node_results = [];
  trigger_data = [];
  variables = [];
  metadata = [];
  error_message = "";
  created_at = 1;
  completed_at = none;
}

abbrev input : NodeResult
input = record {
  node_id = "start";
  fields = message_event_data library 100 message;
  status = node_success;
  timestamp = 1;
  error = "";
}

input_found : lookup "external" (("external", input) ∷ []) ≡ some input
unfolding lookup
input_found = refl

execute_kafka_trigger-message_event_data_example :
    execute_kafka_trigger kafka_node context (("external", input) ∷ [])
    ≡ ok (
        success_on "start" output_port_success (
          entry "topic" (string "orders") (
            entry "partition" (int32 2) (
              entry "offset" (int64 7) (
                entry "key" nil (
                  entry "message" nil (
                    entry "headers"
                      (object (object_of (header_map (("trace", "1") ∷ []) [])))
                      (entry "timestamp" (string "") (entry "config" other [])))))))))
execute_kafka_trigger-message_event_data_example =
    execute_kafka_trigger-message_event_data library 100 message kafka_node context
      (("external", input) ∷ []) input input_found refl
