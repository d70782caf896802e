-- ===== src/Models/Source.antt =====
-- What the providers keep: schedules, webhook and Kafka sources, consumers, and the source events
-- that they publish (pkg/providers/*/models).
use operion.Base.{ℕ, String, Bool, Dict, List, [], Option}
use operion.Models.Value.{Value}
use operion.Models.Event.{SourceEvent}

pub record Schedule : Type 0 where
  pub id : String
  pub source_id : String
  pub cron_expression : String
  pub next_due_at : ℕ
  pub created_at : ℕ
  pub updated_at : ℕ
  pub active : Bool

pub record WebhookSource : Type 0 where
  pub id : String
  -- The text of the UUID.
  pub external_id : String
  pub json_schema : Dict Value
  pub configuration : Dict Value
  pub created_at : ℕ
  pub updated_at : ℕ
  pub active : Bool

pub record ConnectionDetails : Type 0 where
  pub topic : String
  pub consumer_group : String
  pub brokers : List String
  pub config : Option (Dict Value)

pub record KafkaSource : Type 0 where
  pub id : String
  pub connection_details_id : String
  pub connection_details : ConnectionDetails
  pub json_schema : Dict Value
  pub configuration : Dict Value
  pub created_at : ℕ
  pub updated_at : ℕ
  pub active : Bool

-- A consumer's sources and what it connects to; the handles of the client library are left out.
pub record ConsumerManager : Type 0 where
  pub sources : Dict KafkaSource
  pub connection_details : ConnectionDetails
  pub consumer_group : String

-- The state of the source manager's process and of its files. The file persistence of a provider
-- has its records in memory and writes all of them to one file.
pub record Sources : Type 0 where
  pub schedules : Dict Schedule
  pub schedules_file : Dict Schedule
  pub webhooks : Dict WebhookSource
  pub webhooks_file : Dict WebhookSource
  pub kafka_sources : Dict KafkaSource
  pub kafka_sources_file : Dict KafkaSource
  -- The consumers of the Kafka provider by the identifiers of their connections.
  pub consumers : Dict ConsumerManager
  -- The source events that are on their bus; the oldest first.
  pub events : List SourceEvent

unfoldable pub no_sources : Sources
no_sources = record {
  schedules = [];
  schedules_file = [];
  webhooks = [];
  webhooks_file = [];
  kafka_sources = [];
  kafka_sources_file = [];
  consumers = [];
  events = [];
}
