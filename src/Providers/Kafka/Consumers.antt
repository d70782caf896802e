-- ===== src/Providers/Kafka/Consumers.antt =====
-- The consumers of the Kafka provider, and what they do with a message
-- (pkg/providers/kafka/provider.go).
pub mod Grouping
use Prim.Native.String
use operion.Base.{
  ℕ, String, Bool, true, false, not, ◌==◌, if◌then◌else◌, List, [], ◌∷◌, ◌++◌, is_empty, Dict,
  lookup, insert, values, Option, none, some,
}
use operion.Models.Value.{Value, nil, string, int32, int64, object, object_of, field, no_fields}
use operion.Models.Event.{Error}
use operion.Models.Workflow.{Workflow, WorkflowNode}
use operion.Models.Source.{ConnectionDetails, KafkaSource, ConsumerManager, Sources}
use operion.Store.{World, Result, ok, err, M, ◌>>=◌, ◌>>◌, pure, gets, modify, attempt}
use operion.Activator.{generate_id}
use operion.Providers.{callback, configure, named_source}
use operion.Providers.Kafka.{
  Digests, new_kafka_source, update_kafka_configuration, save_kafka_source, kafka_source_by_id,
  active_kafka_sources, get_consumer_group, with_kafka_sources,
}

-- The sources of a list by their identifiers.
unfoldable pub by_id : List KafkaSource → Dict KafkaSource → Dict KafkaSource
by_id [] m = m
by_id (s ∷ ss) m = by_id ss (insert s.id s m)

abbrev pub group_or_none : Option (List KafkaSource) → List KafkaSource
group_or_none none = []
group_or_none (some ss) = ss

abbrev pub add_to_group : KafkaSource → Dict (List KafkaSource) → Dict (List KafkaSource)
add_to_group s groups =
    insert s.connection_details_id
      (group_or_none (lookup s.connection_details_id groups) ++ (s ∷ [])) groups

-- The loop of `updateConsumerManagers` that groups the sources by the identifiers of their
-- connections.
unfoldable pub group : List KafkaSource → Dict (List KafkaSource) → Dict (List KafkaSource)
group [] groups = groups
group (s ∷ ss) groups = group ss (add_to_group s groups)

-- The manager of a group: an existing one gets the group's sources, and a new one connects as the
-- first of them says. A group is not empty.
abbrev pub manager_of : List KafkaSource → Option ConsumerManager → Option ConsumerManager
manager_of [] existing = existing
manager_of (s ∷ ss) (some existing) = some (record existing { sources = by_id (s ∷ ss) [] })
manager_of (s ∷ ss) none = some (record {
  sources = by_id (s ∷ ss) [];
  connection_details = s.connection_details;
  consumer_group = get_consumer_group s;
})

abbrev pub put : String → Option ConsumerManager → Dict ConsumerManager → Dict ConsumerManager
put id none m = m
put id (some manager) m = insert id manager m

-- The loop that creates or updates the managers.
unfoldable pub put_managers : Dict (List KafkaSource) → Dict ConsumerManager → Dict ConsumerManager
put_managers [] m = m
put_managers ((id, ss) ∷ groups) m = put_managers groups (put id (manager_of ss (lookup id m)) m)

abbrev pub keep_if :
    Option (List KafkaSource)
    → String
    → ConsumerManager
    → Dict ConsumerManager
    → Dict ConsumerManager
keep_if none id manager m = m
keep_if (some ss) id manager m = (id, manager) ∷ m

-- The loop that removes the managers without a group.
unfoldable pub remove_unused : Dict (List KafkaSource) → Dict ConsumerManager → Dict ConsumerManager
remove_unused groups [] = []
remove_unused groups ((id, manager) ∷ m) =
    keep_if (lookup id groups) id manager (remove_unused groups m)

unfoldable pub managers_for : List KafkaSource → Dict ConsumerManager → Dict ConsumerManager
managers_for active m = remove_unused (group active []) (put_managers (group active []) m)

-- `updateConsumerManagers`; a manager that is stopped has its errors logged.
unfoldable pub update_consumer_managers : M (Unit {0})
update_consumer_managers = do
  active ← active_kafka_sources
  modify (λ w. record w {
    sources = record w.sources { consumers = managers_for active w.sources.consumers };
  })

abbrev pub kafka_provider : String
kafka_provider = "kafka"

abbrev pub message_received : String
message_received = "message_received"

-- A message of the client library.
pub record Message : Type 0 where
  pub topic : String
  pub partition : ℕ
  pub offset : ℕ
  -- The empty text if there is none.
  pub key : String
  pub value : String
  pub message_headers : List (String × String)

-- `json.Unmarshal` into any value, the schema library, and the layout RFC 3339 of a time.
pub record Library : Type 0 where
  pub parse_json : String → Option Value
  pub validate_schema : Value → Dict Value → Option Error
  pub rfc3339 : ℕ → String

abbrev json_or_raw : String → Option Value → Value
json_or_raw text none = object (field "raw_message" (string text) no_fields)
json_or_raw text (some v) = v

-- The message's data: JSON, or the text as it is.
unfoldable pub message_data : Library → Message → Value
message_data l x = if x.value == "" then nil else json_or_raw x.value (l.parse_json x.value)

unfoldable pub header_map : List (String × String) → Dict Value → Dict Value
header_map [] m = m
header_map ((k, v) ∷ hs) m = header_map hs (insert k (string v) m)

unfoldable pub message_event_data : Library → ℕ → Message → Dict Value
message_event_data l now x =
    ("topic", string x.topic)
    ∷ ("partition", int32 x.partition)
    ∷ ("offset", int64 x.offset)
    ∷ ("timestamp", string (l.rfc3339 now))
    ∷ ("key", string x.key)
    ∷ ("message", message_data l x)
    ∷ ("headers", object (object_of (header_map x.message_headers [])))
    ∷ []

-- The test of the source's schema, if it has one.
unfoldable pub message_error : Library → KafkaSource → Message → Option Error
message_error l s x =
    if is_empty s.json_schema then none else l.validate_schema (message_data l x) s.json_schema

module _ (l : Library) where
  abbrev pub send_unless : String → Message → Option Error → M (Unit {0})
  send_unless id x (some e) = pure tt
  send_unless id x none = gets (λ w. w.now) >>= λ now.
      callback id kafka_provider message_received (message_event_data l now x)

  -- `processMessage`: a message that the schema does not allow is discarded.
  unfoldable pub process_message : String → KafkaSource → Message → M (Unit {0})
  process_message id s x = send_unless id x (message_error l s x)

  -- The loop of `ConsumeClaim` over the sources of the manager; an error is logged.
  unfoldable pub process_for_each : Dict KafkaSource → Message → M (Unit {0})
  process_for_each [] x = pure tt
  process_for_each ((id, s) ∷ m) x = do
    sent ← attempt (process_message id s x)
    process_for_each m x

module _ (uuid : ℕ → String) (d : Digests) where
  abbrev pub kafka_source_or_new : Bool → String → M String
  kafka_source_or_new true source = generate_id uuid
  kafka_source_or_new false source = pure source

  abbrev pub saved_or_none : String → Result (Unit {0}) → M String
  saved_or_none source (err e) = pure ""
  saved_or_none source (ok _) = pure source

  abbrev pub save_created : String → Result KafkaSource → M String
  save_created source (err e) = pure ""
  save_created source (ok s) = attempt (save_kafka_source s) >>= saved_or_none source

  abbrev pub save_updated : String → Result KafkaSource → M String
  save_updated source (err e) = pure ""
  save_updated source (ok s) = attempt (save_kafka_source s) >>= λ _. pure source

  abbrev pub create_or_update_kafka : String → WorkflowNode → Option KafkaSource → M String
  create_or_update_kafka source n (some existing) = gets (λ w. w.now) >>= λ now.
      save_updated source (update_kafka_configuration d now n.config existing)
  create_or_update_kafka source n none =
      gets (λ w. w.now) >>= λ now. save_created source (new_kafka_source d now source n.config)

  -- `processKafkaTriggerNode`: the node's source, or the empty text.
  unfoldable pub process_kafka_trigger_node : WorkflowNode → M String
  process_kafka_trigger_node n = do
    source ← kafka_source_or_new (named_source n == "") (named_source n)
    existing ← kafka_source_by_id source
    create_or_update_kafka source n existing

  -- `Configure`.
  unfoldable pub configure_kafka : List Workflow → M (Dict String)
  configure_kafka workflows = do
    mapped ← configure kafka_provider process_kafka_trigger_node workflows []
    update_consumer_managers
    pure mapped
