-- ===== src/Providers/Webhook/Server/Answers.antt =====
-- When the webhook server publishes an event, and what it answers
-- (pkg/providers/webhook/server.go, `handleWebhook`).
use operion.Base.{
  ℕ, ◌≤◌, String, true, false, ◌==◌, ltb, arith, ◌≡◌, refl, inl, inr, Bool-cases, [], ◌∷◌, ◌++◌,
  Dict, values, Option, none, some,
}
use operion.Models.Value.{Value}
use operion.Models.Event.{Error, SourceEvent, new_source_event, validate_source_event}
use operion.Models.Source.{WebhookSource}
use operion.Store.{World, M, pure}
use operion.Store.Ensures.{Quiet, Ensures, returns, attempt_act-Ensures, Never}
use operion.Providers.{callback}
use operion.Providers.Publishing.{callback-Acts}
use operion.Providers.Webhook.{first_with_external_id, webhook_source_by_external_id}
use operion.Providers.Webhook.Server.{
  WebhookRequest, Library, max_request_body_size, trim_prefix, enrich_event_data, event_data,
  schema_error, webhook_provider, webhook_received, status_of, publish_webhook, unless_schema_error,
  with_event_data, with_body, with_source, handle_webhook,
}

-- The request goes by `POST` to an active source, and its body, of at most 1 MiB, holds data that
-- the source's schema allows.
pub record Accepts (l : Library) (r : WebhookRequest) (w : World) (s : WebhookSource)
    (data_ : Dict Value) : Type 0 where
  pub has_uuid : (trim_prefix "/webhook/" r.path == "") ≡ false
  pub is_post : (r.method == "POST") ≡ true
  pub is_found :
      first_with_external_id (trim_prefix "/webhook/" r.path) (values w.sources.webhooks) ≡ some s
  pub is_active : s.active ≡ true
  pub text : String
  pub is_read : r.body ≡ some text
  pub fits : ltb max_request_body_size r.body_size ≡ false
  pub is_data : event_data l text ≡ some data_
  pub conforms : schema_error l s data_ ≡ none

-- The event that a request publishes.
unfoldable pub webhook_event :
    Library → ℕ → WebhookRequest → WebhookSource → Dict Value → SourceEvent
webhook_event l now r s data_ =
    new_source_event s.id webhook_provider webhook_received (enrich_event_data l now data_ r)

-- The answer 200 with one more event, or an error with none.
pub data Handled (l : Library) (r : WebhookRequest) (w : World) : ℕ → World → Type 0 where
  accepted :
      {u : World} (s : WebhookSource) (data_ : Dict Value)
      → Accepts l r w s data_
      → u.sources.events ≡ w.sources.events ++ (webhook_event l w.now r s data_ ∷ [])
      → Handled l r w 200 u
  refused :
      {status : ℕ} {u : World}
      → 400 ≤ status
      → u.sources.events ≡ w.sources.events
      → Handled l r w status u

module _ (l : Library) (r : WebhookRequest) (w : World) where
  Answers : M ℕ → Type 0
  Answers m = Ensures (λ status u. Handled l r w status u) Never (m w)

  refuse : (status : ℕ) → 400 ≤ status → Answers (pure status)
  unfolding Answers
  refuse status h = returns (refused h refl)

  publish_webhook-Answers :
      (s : WebhookSource) (data_ : Dict Value)
      → Accepts l r w s data_
      → Answers (publish_webhook l (some callback) r s data_)
  unfolding Answers publish_webhook webhook_event callback new_source_event validate_source_event
  publish_webhook-Answers s data_ a = elim (Bool-cases (s.id == "")) [
    | inl q ↦ rw q (returns (refused (omega arith) refl))
    | inr q ↦
        attempt_act-Ensures
          (callback s.id webhook_provider webhook_received (enrich_event_data l w.now data_ r))
          (λ published. pure (status_of published))
          (callback-Acts s.id webhook_provider webhook_received (enrich_event_data l w.now data_ r)
            w (rw q refl))
          (λ gs k. returns (accepted s data_ a refl)) (λ gs n. returns (refused (omega arith) refl))
  ]

  Finds : WebhookSource → Type 0
  Finds s =
      ((trim_prefix "/webhook/" r.path == "") ≡ false)
      × ((r.method == "POST") ≡ true)
      × (first_with_external_id (trim_prefix "/webhook/" r.path) (values w.sources.webhooks)
          ≡ some s)
      × (s.active ≡ true)

  with_event_data-Answers :
      (s : WebhookSource) (text : String) (o : Option (Dict Value))
      → Finds s
      → r.body ≡ some text
      → ltb max_request_body_size r.body_size ≡ false
      → event_data l text ≡ o
      → Answers (with_event_data l (some callback) r s o)
  unfolding Answers Finds
  with_event_data-Answers s text none f b z e = refuse 400 (omega arith)
  with_event_data-Answers s text (some data_) (u, p, x, v) b z e =
      checked (schema_error l s data_) refl
    where
      checked :
          (o : Option Error)
          → schema_error l s data_ ≡ o
          → Answers (unless_schema_error l (some callback) r s data_ o)
      checked (some e) c = refuse 400 (omega arith)
      checked none c = publish_webhook-Answers s data_ (record {
        has_uuid = u;
        is_post = p;
        is_found = x;
        is_active = v;
        text = text;
        is_read = b;
        fits = z;
        is_data = e;
        conforms = c;
      })

  with_body-Answers :
      (s : WebhookSource) (o : Option String)
      → Finds s
      → r.body ≡ o
      → Answers (with_body l (some callback) r s o)
  unfolding Answers
  with_body-Answers s none f b = refuse 400 (omega arith)
  with_body-Answers s (some text) f b = elim (Bool-cases (ltb max_request_body_size r.body_size)) [
    | inl z ↦ rw z (refuse 400 (omega arith))
    | inr z ↦ rw z (with_event_data-Answers s text (event_data l text) f b z refl)
  ]

  with_source-Answers :
      (o : Option WebhookSource)
      → (trim_prefix "/webhook/" r.path == "") ≡ false
      → (r.method == "POST") ≡ true
      → first_with_external_id (trim_prefix "/webhook/" r.path) (values w.sources.webhooks) ≡ o
      → Answers (with_source l (some callback) r o)
  unfolding Answers Finds
  with_source-Answers none u p x = refuse 404 (omega arith)
  with_source-Answers (some s) u p x = elim (Bool-cases s.active) [
    | inl v ↦ simp v (with_body-Answers s r.body (u, p, x, v) refl)
    | inr v ↦ rw v (refuse 404 (omega arith))
  ]

-- The webhook server answers every request: with 200 if the request is a `POST` to an active
-- source whose body holds data that the source's schema allows, and then the one event of that
-- data is new on the bus; or with an error, and then nothing is.
pub handle_webhook-Handled :
    (l : Library) (r : WebhookRequest) (w : World)
    → Ensures (λ status u. Handled l r w status u) Never (handle_webhook l (some callback) r w)
unfolding Answers handle_webhook webhook_source_by_external_id
handle_webhook-Handled l r w = elim (Bool-cases (trim_prefix "/webhook/" r.path == "")) [
  | inl u ↦ rw u (refuse l r w 400 (omega arith))
  | inr u ↦ elim (Bool-cases (r.method == "POST")) [
    | inl p ↦ rw (u, p) (with_source-Answers l r w _ u p refl)
    | inr p ↦ rw (u, p) (refuse l r w 405 (omega arith))
  ]
]

-- If nothing fails, the server answers a request that such a source accepts with 200.
pub handle_webhook-on_accepted :
    (l : Library) (r : WebhookRequest) (w : World) (s : WebhookSource) (data_ : Dict Value)
    → Accepts l r w s data_
    → (s.id == "") ≡ false
    → Quiet w.faults
    → Ensures
        (λ status u.
          (status ≡ 200)
          × (u.sources.events ≡ w.sources.events ++ (webhook_event l w.now r s data_ ∷ [])))
        Never
        (handle_webhook l (some callback) r w)
unfolding handle_webhook webhook_source_by_external_id publish_webhook webhook_event
    validate_source_event new_source_event
handle_webhook-on_accepted l r w s data_ a n f =
    simp (a.has_uuid, a.is_post, a.is_found, a.is_active, a.is_read, a.fits, a.is_data, a.conforms)
      (attempt_act-Ensures
        (callback s.id webhook_provider webhook_received (enrich_event_data l w.now data_ r))
        (λ published. pure (status_of published))
        (callback-Acts s.id webhook_provider webhook_received (enrich_event_data l w.now data_ r) w
          (rw n refl))
        (λ gs k. returns (refl, refl)) (λ gs x. absurd (x f)))
