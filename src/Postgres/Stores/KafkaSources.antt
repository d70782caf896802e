-- ===== src/Postgres/Stores/KafkaSources.antt =====
-- Kafka sources over PostgreSQL (pkg/providers/kafka/persistence/postgres.go).
use operion.Base.{ℕ, String, not, ◌==◌, List, filter, Option}
use operion.Models.Source.{KafkaSource}
use operion.Store.{M, ◌>>=◌, ◌>>◌, pure, gets}
use operion.Postgres.{Sorting, select, exec, first}
use operion.Postgres.Stores.{upsert, time_or, delete_where}

-- The columns, with what they keep of the times.
abbrev pub kafka_row : (ℕ → ℕ) → KafkaSource → KafkaSource
kafka_row keeps s = record s { created_at = keeps s.created_at; updated_at = keeps s.updated_at }

abbrev pub keep_created : KafkaSource → KafkaSource → KafkaSource
keep_created old new = record new { created_at = old.created_at }

-- `SaveKafkaSource`; the result is the source as it stands after the call.
unfoldable pub save_kafka_source : KafkaSource → M KafkaSource
save_kafka_source s = do
  now ← gets (λ w. w.now)
  let t = record s { created_at = time_or s.created_at now; updated_at = now }
  exec (λ _ d. record d {
    kafka_sources = upsert (λ r. r.id) keep_created (kafka_row d.keeps t) d.kafka_sources;
  })
  pure t

-- `KafkaSourceByID`.
unfoldable pub kafka_source_by_id : String → M (Option KafkaSource)
kafka_source_by_id id = do
  rows ← select (λ d. filter (λ s. s.id == id) d.kafka_sources)
  pure (first rows)

-- `DeleteKafkaSource`.
unfoldable pub delete_kafka_source : String → M (Unit {0})
delete_kafka_source id =
    delete_where (λ d. record d { kafka_sources = filter (λ s. not (s.id == id)) d.kafka_sources })

module _ (sort : Sorting) where
  -- `KafkaSourceByConnectionDetailsID`.
  unfoldable pub kafka_sources_by_connection_details_id : String → M (List KafkaSource)
  kafka_sources_by_connection_details_id id = select (λ d.
      sort.ascending (λ s. s.created_at)
        (filter (λ s. s.connection_details_id == id) d.kafka_sources))

  -- `KafkaSources`.
  unfoldable pub all_kafka_sources : M (List KafkaSource)
  all_kafka_sources = select (λ d. sort.ascending (λ s. s.created_at) d.kafka_sources)

  -- `ActiveKafkaSources`.
  unfoldable pub active_kafka_sources : M (List KafkaSource)
  active_kafka_sources =
      select (λ d. sort.ascending (λ s. s.created_at) (filter (λ s. s.active) d.kafka_sources))
