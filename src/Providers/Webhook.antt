-- ===== src/Providers/Webhook.antt =====
-- The webhook provider (pkg/providers/webhook): its sources and their file
-- (models/webhook_source.go and persistence/file.go).
pub mod Server
pub mod Configuring
pub mod Passing
pub mod Mapped
use Prim.Native.String
use operion.Base.{
  ℕ, String, Bool, true, false, not, ◌||◌, ◌==◌, if◌then◌else◌, List, [], ◌∷◌, filter, is_empty,
  Dict, lookup, insert, delete, values, Option, none, some,
}
use operion.Models.Value.{Value, as_object}
use operion.Models.Event.{Error, io_failed, field_required}
use operion.Models.Source.{WebhookSource, Sources}
use operion.Store.{World, Result, ok, err, M, ◌>>=◌, ◌>>◌, pure, io, gets, modify}

-- The configured schema, if it is an object.
abbrev pub schema_or : Dict Value → Option Value → Dict Value
schema_or old (some v) = object_or old (as_object (some v))
  where
    object_or : Dict Value → Option (Dict Value) → Dict Value
    object_or old none = old
    object_or old (some schema) = schema
schema_or old none = []

-- `NewWebhookSource` with the identifier for the outside that it generates.
unfoldable pub new_webhook_source : String → ℕ → String → Dict Value → Result WebhookSource
new_webhook_source external_id now source_id configuration =
    if source_id == ""
    then err (field_required "source_id")
    else ok (record {
      id = source_id;
      external_id = external_id;
      json_schema = schema_or [] (lookup "json_schema" configuration);
      configuration = configuration;
      created_at = now;
      updated_at = now;
      active = true;
    })

abbrev nil_uuid : String
nil_uuid = "00000000-0000-0000-0000-000000000000"

-- `WebhookSource.Validate`.
unfoldable pub validate_webhook_source : WebhookSource → Option Error
validate_webhook_source s =
    if s.id == "" || s.external_id == nil_uuid then some (field_required "webhook source") else none

-- `GetWebhookURL`.
unfoldable pub get_webhook_url : WebhookSource → String
get_webhook_url s = String.◌++◌ "/webhook/" s.external_id

-- `HasJSONSchema`.
unfoldable pub has_json_schema : WebhookSource → Bool
has_json_schema s = not (is_empty s.json_schema)

-- `UpdateConfiguration`: a schema that is no object leaves the old one in place.
unfoldable pub update_configuration : ℕ → Dict Value → WebhookSource → WebhookSource
update_configuration now config s = record s {
  configuration = config;
  updated_at = now;
  json_schema = schema_or s.json_schema (lookup "json_schema" config);
}

abbrev pub with_webhooks : Dict WebhookSource → World → World
with_webhooks m w = record w { sources = record w.sources { webhooks = m } }

abbrev pub write_webhooks : World → World
write_webhooks w = record w { sources = record w.sources { webhooks_file = w.sources.webhooks } }

-- `saveWebhookSourcesToFile`.
unfoldable pub save_webhook_sources_to_file : M (Unit {0})
save_webhook_sources_to_file = do io io_failed; modify write_webhooks

-- `SaveWebhookSource`: the memory changes also if the file cannot be written.
unfoldable pub save_webhook_source : WebhookSource → M (Unit {0})
save_webhook_source s = do
  modify (λ w. with_webhooks (insert s.id s w.sources.webhooks) w)
  save_webhook_sources_to_file

-- `WebhookSourceByID`.
unfoldable pub webhook_source_by_id : String → M (Option WebhookSource)
webhook_source_by_id id = gets (λ w. lookup id w.sources.webhooks)

unfoldable pub first_with_external_id : String → List WebhookSource → Option WebhookSource
first_with_external_id id [] = none
first_with_external_id id (s ∷ ss) =
    if s.external_id == id then some s else first_with_external_id id ss

-- `WebhookSourceByExternalID`; the loop over the map takes the entries in the dictionary's order.
unfoldable pub webhook_source_by_external_id : String → M (Option WebhookSource)
webhook_source_by_external_id id = gets (λ w. first_with_external_id id (values w.sources.webhooks))

-- `WebhookSources`.
unfoldable pub webhook_sources : M (List WebhookSource)
webhook_sources = gets (λ w. values w.sources.webhooks)

-- `ActiveWebhookSources`.
unfoldable pub active_webhook_sources : M (List WebhookSource)
active_webhook_sources = gets (λ w. filter (λ s. s.active) (values w.sources.webhooks))

-- `DeleteWebhookSource`.
unfoldable pub delete_webhook_source : String → M (Unit {0})
delete_webhook_source id = do
  modify (λ w. with_webhooks (delete id w.sources.webhooks) w)
  save_webhook_sources_to_file

-- `loadWebhookSources`: each source of the file under its identifier.
unfoldable pub loaded : List WebhookSource → Dict WebhookSource → Dict WebhookSource
loaded [] m = m
loaded (s ∷ ss) m = loaded ss (insert s.id s m)

unfoldable pub load_webhook_sources : M (Unit {0})
load_webhook_sources = do
  io io_failed
  modify (λ w. with_webhooks (loaded (values w.sources.webhooks_file) []) w)
