-- ===== src/Postgres/Stores/Webhooks.antt =====
-- Webhook sources over PostgreSQL (pkg/providers/webhook/persistence/postgres.go).
use operion.Base.{ℕ, String, Bool, ◌&&◌, not, any, ◌==◌, List, filter, Option}
use operion.Models.Event.{invalid_id}
use operion.Models.Source.{WebhookSource}
use operion.Models.Database.{Database}
use operion.Store.{M, ◌>>=◌, ◌>>◌, pure, gets, require}
use operion.Postgres.{Sorting, select, exec_unless, first}
use operion.Postgres.Stores.{upsert, time_or, delete_where}

-- The columns, with what they keep of the times.
abbrev pub webhook_row : (ℕ → ℕ) → WebhookSource → WebhookSource
webhook_row keeps s = record s { created_at = keeps s.created_at; updated_at = keeps s.updated_at }

abbrev pub keep_created : WebhookSource → WebhookSource → WebhookSource
keep_created old new = record new { created_at = old.created_at }

-- Another source has the external identifier.
abbrev pub is_taken : WebhookSource → Database → Bool
is_taken s d = any (λ r. not (r.id == s.id) && r.external_id == s.external_id) d.webhook_sources

-- `SaveWebhookSource`; the result is the source as it stands after the call.
unfoldable pub save_webhook_source : WebhookSource → M WebhookSource
save_webhook_source s = do
  now ← gets (λ w. w.now)
  let t = record s { created_at = time_or s.created_at now; updated_at = now }
  exec_unless (λ _ d. is_taken t d)
      (λ _ d. record d {
        webhook_sources = upsert (λ r. r.id) keep_created (webhook_row d.keeps t) d.webhook_sources;
      })
  pure t

-- `WebhookSourceByID`.
unfoldable pub webhook_source_by_id : String → M (Option WebhookSource)
webhook_source_by_id id = do
  rows ← select (λ d. filter (λ s. s.id == id) d.webhook_sources)
  pure (first rows)

-- `WebhookSourceByExternalID`, over `uuid.Parse` to the canonical text.
unfoldable pub webhook_source_by_external_id :
    (String → Option String) → String → M (Option WebhookSource)
webhook_source_by_external_id parse_uuid external_id = do
  external ← require invalid_id (parse_uuid external_id)
  rows ← select (λ d. filter (λ s. s.external_id == external) d.webhook_sources)
  pure (first rows)

-- `DeleteWebhookSource`.
unfoldable pub delete_webhook_source : String → M (Unit {0})
delete_webhook_source id =
    delete_where
      (λ d. record d { webhook_sources = filter (λ s. not (s.id == id)) d.webhook_sources })

module _ (sort : Sorting) where
  -- `WebhookSources`.
  unfoldable pub webhook_sources : M (List WebhookSource)
  webhook_sources = select (λ d. sort.ascending (λ s. s.created_at) d.webhook_sources)

  -- `ActiveWebhookSources`.
  unfoldable pub active_webhook_sources : M (List WebhookSource)
  active_webhook_sources =
      select (λ d. sort.ascending (λ s. s.created_at) (filter (λ s. s.active) d.webhook_sources))
