-- ===== src/Nodes/Trigger/Kafka.antt =====
-- The Kafka trigger node (pkg/nodes/trigger/kafka.go).
use operion.Base.{
  String, Bool, true, if◌then◌else◌, List, [], ◌∷◌, is_empty, Dict, lookup, Option, none, some,
}
use operion.Models.Value.{Value, other, as_string, as_slice}
use operion.Models.Execution.{NodeResult, ExecutionContext}
use operion.Models.Event.{Error, field_required}
use operion.Store.{Result, ok, err}
use operion.Registry.{Node}
use operion.Nodes.Common.{output_port_success, success_on}
use operion.Nodes.Trigger.{external_port, trigger_error, entry, trigger_requirements, is_missing}

pub record KafkaTriggerNode : Type 0 where
  pub id : String
  pub topic : String
  pub consumer_group : String
  pub brokers : List String

abbrev with_broker : Option String → List String → List String
with_broker none brokers = brokers
with_broker (some broker) brokers = broker ∷ brokers

-- The brokers that are texts.
unfoldable pub string_brokers : List Value → List String
string_brokers [] = []
string_brokers (v ∷ vs) = with_broker (as_string (some v)) (string_brokers vs)

abbrev brokers_or_none : Option (List Value) → List String
brokers_or_none none = []
brokers_or_none (some vs) = string_brokers vs

abbrev made : String → Option String → Option String → List String → Result KafkaTriggerNode
made id none group brokers = err (field_required "topic")
made id (some topic) none brokers = err (field_required "consumer_group")
made id (some topic) (some group) brokers =
    if is_empty brokers
    then err (field_required "brokers")
    else ok (record { id = id; topic = topic; consumer_group = group; brokers = brokers })

-- `NewKafkaTriggerNode`.
unfoldable pub new_kafka_trigger_node : String → Dict Value → Result KafkaTriggerNode
new_kafka_trigger_node id config =
    made id (as_string (lookup "topic" config)) (as_string (lookup "consumer_group" config))
      (brokers_or_none (as_slice (lookup "brokers" config)))

-- The output on success; the node's configuration is a value of another type.
unfoldable pub kafka_output : Dict Value → Dict Value
kafka_output kafka_data =
    ("topic", entry "topic" kafka_data)
    ∷ ("partition", entry "partition" kafka_data)
    ∷ ("offset", entry "offset" kafka_data)
    ∷ ("key", entry "message_key" kafka_data)
    ∷ ("message", entry "message_data" kafka_data)
    ∷ ("headers", entry "headers" kafka_data)
    ∷ ("timestamp", entry "timestamp" kafka_data)
    ∷ ("config", other)
    ∷ []

abbrev passed : KafkaTriggerNode → Option NodeResult → Dict NodeResult
passed n none = trigger_error n.id "external input not found"
passed n (some input) = success_on n.id output_port_success (kafka_output input.fields)

-- `Execute`.
unfoldable pub execute_kafka_trigger :
    KafkaTriggerNode → ExecutionContext → Dict NodeResult → Result (Dict NodeResult)
execute_kafka_trigger n c inputs = ok (passed n (lookup external_port inputs))

abbrev no_brokers : Option (List Value) → Bool
no_brokers none = true
no_brokers (some vs) = is_empty vs

-- `Validate`.
unfoldable pub validate_kafka_trigger : Dict Value → Option Error
validate_kafka_trigger config =
    if is_missing (as_string (lookup "topic" config))
    then some (field_required "topic")
    else if is_missing (as_string (lookup "consumer_group" config))
    then some (field_required "consumer_group")
    else if no_brokers (as_slice (lookup "brokers" config))
    then some (field_required "brokers")
    else none

-- The node as the worker uses it.
unfoldable pub kafka_trigger_node : KafkaTriggerNode → Node
kafka_trigger_node n = record {
  input_requirements = some trigger_requirements;
  execute = execute_kafka_trigger n;
}
