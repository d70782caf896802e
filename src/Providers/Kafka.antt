-- ===== src/Providers/Kafka.antt =====
-- The Kafka provider (pkg/providers/kafka): its sources and their file (models/kafka_source.go and
-- persistence/file.go).
pub mod Consumers
pub mod Passing
use Prim.Native.String
use operion.Base.{
  ℕ, String, Bool, true, false, not, ◌||◌, ◌==◌, if◌then◌else◌, List, [], ◌∷◌, ◌++◌, filter,
  is_empty, Dict, lookup, insert, delete, values, Option, none, some,
}
use operion.Models.Value.{Value, as_string, as_slice, as_object}
use operion.Models.Event.{Error, io_failed, field_required, invalid_config}
use operion.Models.Source.{ConnectionDetails, KafkaSource, Sources}
use operion.Nodes.Common.{text_or}
use operion.Providers.Webhook.Server.{join}
use operion.Store.{World, Result, ok, err, M, ◌>>=◌, ◌>>◌, pure, io, gets, modify}

-- What the models call of Go's libraries: `json.Marshal`, and the hexadecimal form of the first 16
-- bytes of the SHA-256 digest.
pub record Digests : Type 0 where
  pub marshal : Dict Value → Option String
  pub digest : String → String

abbrev broker_or_error : Option String → Result (List String) → Result (List String)
broker_or_error none rest = err (invalid_config "brokers")
broker_or_error (some s) (err e) = if s == "" then err (invalid_config "brokers") else err e
broker_or_error (some s) (ok ss) = if s == "" then err (invalid_config "brokers") else ok (s ∷ ss)

unfoldable pub broker_strings : List Value → Result (List String)
broker_strings [] = ok []
broker_strings (v ∷ vs) = broker_or_error (as_string (some v)) (broker_strings vs)

abbrev brokers_or_error : Option (List Value) → Result (List String)
brokers_or_error none = err (invalid_config "brokers")
brokers_or_error (some []) = err (invalid_config "brokers")
brokers_or_error (some (v ∷ vs)) = broker_strings (v ∷ vs)

-- `parseBrokers` of a value that comes from JSON, so that it is no `[]string`.
unfoldable pub parse_brokers : Value → Result (List String)
parse_brokers v = brokers_or_error (as_slice (some v))

abbrev topic_or_error : Option String → Result String
topic_or_error none = err (invalid_config "topic")
topic_or_error (some s) = if s == "" then err (invalid_config "topic") else ok s

abbrev topic_of : Option Value → Result String
topic_of none = err (field_required "topic")
topic_of (some v) = topic_or_error (as_string (some v))

abbrev brokers_of : Option Value → Result (List String)
brokers_of none = err (field_required "brokers")
brokers_of (some v) = parse_brokers v

abbrev with_details : Dict Value → Result String → Result (List String) → Result ConnectionDetails
with_details config (err e) brokers = err e
with_details config (ok topic) (err e) = err e
with_details config (ok topic) (ok brokers) = ok (record {
  topic = topic;
  consumer_group = text_or "" (as_string (lookup "consumer_group" config));
  brokers = brokers;
  config = as_object (lookup "kafka_config" config);
})

-- `extractConnectionDetails`.
unfoldable pub extract_connection_details : Dict Value → Result ConnectionDetails
extract_connection_details config =
    with_details config (topic_of (lookup "topic" config)) (brokers_of (lookup "brokers" config))

-- `extractJSONSchema`.
unfoldable pub extract_json_schema : Dict Value → Option (Dict Value)
extract_json_schema config = as_object (lookup "json_schema" config)

module _ (d : Digests) where
  abbrev text_part : Option String → List String
  text_part none = []
  text_part (some s) = s ∷ []

  abbrev json_part : Option (Dict Value) → List String
  json_part none = []
  json_part (some m) = text_part (d.marshal m)

  -- The text that `generateConnectionDetailsID` hashes.
  unfoldable pub combined : ConnectionDetails → Option (Dict Value) → String
  combined c schema =
      join "|"
        (c.topic ∷ join "," c.brokers ∷ c.consumer_group ∷ (json_part schema ++ json_part c.config))

  -- `generateConnectionDetailsID`.
  unfoldable pub generate_connection_details_id : ConnectionDetails → Option (Dict Value) → String
  generate_connection_details_id c schema = d.digest (combined c schema)

  abbrev fields_or_none : Option (Dict Value) → Dict Value
  fields_or_none none = []
  fields_or_none (some m) = m

  abbrev new_source_of : ℕ → String → Dict Value → Result ConnectionDetails → Result KafkaSource
  new_source_of now source_id configuration (err e) = err e
  new_source_of now source_id configuration (ok c) = ok (record {
    id = source_id;
    connection_details_id = generate_connection_details_id c (extract_json_schema configuration);
    connection_details = c;
    json_schema = fields_or_none (extract_json_schema configuration);
    configuration = configuration;
    created_at = now;
    updated_at = now;
    active = true;
  })

  -- `NewKafkaSource`.
  unfoldable pub new_kafka_source : ℕ → String → Dict Value → Result KafkaSource
  new_kafka_source now source_id configuration =
      if source_id == ""
      then err (field_required "source_id")
      else new_source_of now source_id configuration (extract_connection_details configuration)

  abbrev updated_source :
      ℕ → Dict Value → KafkaSource → Result ConnectionDetails → Result KafkaSource
  updated_source now config s (err e) = err e
  updated_source now config s (ok c) = ok (record s {
    connection_details = c;
    connection_details_id = generate_connection_details_id c (extract_json_schema config);
    configuration = config;
    updated_at = now;
    json_schema = fields_or_none (extract_json_schema config);
  })

  -- `UpdateConfiguration`; the source stays as it is on an error.
  unfoldable pub update_kafka_configuration : ℕ → Dict Value → KafkaSource → Result KafkaSource
  update_kafka_configuration now config s =
      updated_source now config s (extract_connection_details config)

-- `KafkaSource.Validate`.
unfoldable pub validate_kafka_source : KafkaSource → Option Error
validate_kafka_source s =
    if s.id == "" || s.connection_details_id == ""
    then some (field_required "kafka source")
    else if s.connection_details.topic == ""
    then some (field_required "topic")
    else if is_empty s.connection_details.brokers
    then some (field_required "brokers")
    else none

-- `GetConsumerGroup`.
unfoldable pub get_consumer_group : KafkaSource → String
get_consumer_group s =
    if not (s.connection_details.consumer_group == "")
    then s.connection_details.consumer_group
    else String.◌++◌ "operion-kafka-" s.connection_details_id

-- `CanShareConsumerWith`.
unfoldable pub can_share_consumer_with : KafkaSource → KafkaSource → Bool
can_share_consumer_with s t = s.connection_details_id == t.connection_details_id

abbrev pub with_kafka_sources : Dict KafkaSource → World → World
with_kafka_sources m w = record w { sources = record w.sources { kafka_sources = m } }

-- `saveKafkaSourcesToFile`.
unfoldable pub save_kafka_sources_to_file : M (Unit {0})
save_kafka_sources_to_file = do
  io io_failed
  modify (λ w. record w {
    sources = record w.sources { kafka_sources_file = w.sources.kafka_sources };
  })

-- `SaveKafkaSource`: the memory changes also if the file cannot be written.
unfoldable pub save_kafka_source : KafkaSource → M (Unit {0})
save_kafka_source s = do
  modify (λ w. with_kafka_sources (insert s.id s w.sources.kafka_sources) w)
  save_kafka_sources_to_file

-- `KafkaSourceByID`.
unfoldable pub kafka_source_by_id : String → M (Option KafkaSource)
kafka_source_by_id id = gets (λ w. lookup id w.sources.kafka_sources)

-- `KafkaSourceByConnectionDetailsID`.
unfoldable pub kafka_sources_by_connection_details_id : String → M (List KafkaSource)
kafka_sources_by_connection_details_id id =
    gets (λ w. filter (λ s. s.connection_details_id == id) (values w.sources.kafka_sources))

-- `KafkaSources`.
unfoldable pub all_kafka_sources : M (List KafkaSource)
all_kafka_sources = gets (λ w. values w.sources.kafka_sources)

-- `ActiveKafkaSources`.
unfoldable pub active_kafka_sources : M (List KafkaSource)
active_kafka_sources = gets (λ w. filter (λ s. s.active) (values w.sources.kafka_sources))

-- `DeleteKafkaSource`.
unfoldable pub delete_kafka_source : String → M (Unit {0})
delete_kafka_source id = do
  modify (λ w. with_kafka_sources (delete id w.sources.kafka_sources) w)
  save_kafka_sources_to_file

-- `loadKafkaSources`: each source of the file under its identifier.
unfoldable pub loaded : List KafkaSource → Dict KafkaSource → Dict KafkaSource
loaded [] m = m
loaded (s ∷ ss) m = loaded ss (insert s.id s m)

unfoldable pub load_kafka_sources : M (Unit {0})
load_kafka_sources = do
  io io_failed
  modify (λ w. with_kafka_sources (loaded (values w.sources.kafka_sources_file) []) w)
