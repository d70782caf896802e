-- ===== src/Providers/Webhook/Mapped.antt =====
-- Each trigger node that the webhook provider maps has a webhook source
-- (pkg/providers/webhook/provider.go, `Configure`).
use operion.Base.{
  ℕ, suc, String, Bool, true, false, ◌==◌, eq_iff, ◌≡◌, refl, sym, ap, subst, ◌∙◌, ◌⊎◌, inl, inr,
  Bool-cases, List, [], ◌∷◌, All, Dict, lookup, insert, lookup-insert, values, Option, none, some,
  Filed, insert-Filed, lookup-id,
}
use operion.Models.Event.{io_failed}
use operion.Models.Workflow.{Workflow, WorkflowNode}
use operion.Models.Source.{WebhookSource}
use operion.Store.{World, Result, ok, err, M, ◌>>=◌, pure, io, modify, attempt}
use operion.Store.Ensures.{
  Ensures, acted, returns, io-Reads, >>=-Acts, Acts-Ensures, >>=-Ensures, attempt-Ensures,
  Ensures-weaken, Never,
}
use operion.Activator.{generate_id}
use operion.Providers.{named_source}
use operion.Providers.Mapped.{Gives, configure-All}
use operion.Providers.Webhook.{
  save_webhook_source, save_webhook_sources_to_file, with_webhooks, write_webhooks,
  webhook_source_by_id, new_webhook_source, update_configuration,
}
use operion.Providers.Webhook.Server.{webhook_provider}
use operion.Providers.Webhook.Configuring.{
  source_or_new, unless_failed, save_new, create_or_update, process_webhook_trigger_node,
  configure_webhook,
}

-- The webhook sources in the memory stand under their identifiers, each once.
abbrev pub FiledWebhooks : World → Type 0
FiledWebhooks w = Filed (λ s. s.id) w.sources.webhooks

-- A webhook source of the memory has this identifier.
unfoldable pub HasWebhook : String → World → Type 0
HasWebhook source w =
    (s : WebhookSource) × (lookup source w.sources.webhooks ≡ some s) × (s.id ≡ source)

Saved : WebhookSource → World → World → Type 0
Saved t w v = v.sources.webhooks ≡ insert t.id t w.sources.webhooks

save_webhook_source-Saved :
    (t : WebhookSource) (w : World)
    → Ensures (λ _ v. Saved t w v) (λ _ v. Saved t w v) (save_webhook_source t w)
unfolding save_webhook_source save_webhook_sources_to_file Saved
save_webhook_source-Saved t w =
    Acts-Ensures
      (>>=-Acts {w = u} {u = write_webhooks u} (io io_failed) (λ _. modify write_webhooks)
        (io-Reads io_failed u) (λ gs k. acted gs (λ h. h)))
      (λ gs l. refl) (λ gs n. refl)
  where
    u : World
    u = with_webhooks (insert t.id t w.sources.webhooks) w

HasWebhook-insert :
    (j : String) (t : WebhookSource) (w v : World) → Saved t w v → HasWebhook j w → HasWebhook j v
unfolding HasWebhook Saved
HasWebhook-insert j t w v e (s, h, i) = elim (Bool-cases (t.id == j)) [
  | inl q ↦ (
    t,
    ap (lookup j) e ∙ lookup-insert t.id j t w.sources.webhooks ∙ rw q refl,
    (eq_iff t.id j).0 q,
  )
  | inr q ↦ (s, ap (lookup j) e ∙ lookup-insert t.id j t w.sources.webhooks ∙ rw q h, i)
]

All-insert :
    (sources : List String) (t : WebhookSource) (w v : World)
    → Saved t w v
    → All (λ s. HasWebhook s w) sources
    → All (λ s. HasWebhook s v) sources
All-insert [] t w v e h = tt
All-insert (s ∷ ss) t w v e (h, hs) = (HasWebhook-insert s t w v e h, All-insert ss t w v e hs)

Saved-FiledWebhooks :
    (t : WebhookSource) (w v : World) → Saved t w v → FiledWebhooks w → FiledWebhooks v
unfolding Saved
Saved-FiledWebhooks t w v e h =
    subst (λ (m : Dict WebhookSource). Filed (λ s. s.id) m) (sym e)
      (insert-Filed (λ s. s.id) t w.sources.webhooks h)

Saved-HasWebhook :
    (source : String) (t : WebhookSource) (w v : World)
    → Saved t w v
    → t.id ≡ source
    → HasWebhook source v
unfolding Saved HasWebhook
Saved-HasWebhook source t w v e i = (
  t,
  ap (lookup source) e
      ∙ lookup-insert t.id source t w.sources.webhooks
      ∙ rw ((eq_iff t.id source).1 i) refl,
  i,
)

module _ (uuid : ℕ → String) (sources : List String) where
  Given : String → World → Type 0
  Given = Gives FiledWebhooks HasWebhook sources

  Step : M String → World → Type 0
  Step m w = FiledWebhooks w → All (λ s. HasWebhook s w) sources → Ensures Given Never (m w)

  save_as :
      (source : String) (t : WebhookSource) (f : Result (Unit {0}) → M String) (w : World)
      → t.id ≡ source
      → ((v : World) (r : Result (Unit {0}))
          → Ensures (λ a u. (u ≡ v) × (((a == "") ≡ true) ⊎ (a ≡ source))) Never (f r v))
      → Step (attempt (save_webhook_source t) >>= f) w
  unfolding Step Given Gives
  save_as source t f w i k p h =
      >>=-Ensures (attempt (save_webhook_source t)) f w
        (attempt-Ensures (save_webhook_source t) w (save_webhook_source-Saved t w))
        (λ r v d. Ensures-weaken (after v d) (λ _ _ n. n) (k v r))
    where
      named :
          (a : String) (v : World)
          → Saved t w v
          → ((a == "") ≡ true) ⊎ (a ≡ source)
          → ((a == "") ≡ true) ⊎ HasWebhook a v
      named a v d (inl e) = inl e
      named a v d (inr e) = inr (Saved-HasWebhook a t w v d (i ∙ sym e))

      after :
          (v : World)
          → Saved t w v
          → (a : String) (u : World) → (u ≡ v) × (((a == "") ≡ true) ⊎ (a ≡ source))
          → Gives FiledWebhooks HasWebhook sources a u
      after v d a u (e, n) =
          subst (λ x. Gives FiledWebhooks HasWebhook sources a x) (sym e)
            (Saved-FiledWebhooks t w v d p, named a v d n, All-insert sources t w v d h)

  save_new-Step :
      (source external_id : String) (now : ℕ) (n : WorkflowNode) (w : World)
      → Step (save_new uuid source (new_webhook_source external_id now source n.config)) w
  unfolding new_webhook_source Step Given Gives
  save_new-Step source external_id now n w p h = elim (Bool-cases (source == "")) [
    | inl q ↦ rw q (returns (p, inl refl, h))
    | inr q ↦ rw q (save_as source _ (unless_failed uuid source) w refl answered p h)
  ]
    where
      answered :
          (v : World) (r : Result (Unit {0}))
          → Ensures
              (λ a u. (u ≡ v) × (((a == "") ≡ true) ⊎ (a ≡ source)))
              Never
              (unless_failed uuid source r v)
      answered v (err e) = returns (refl, inl refl)
      answered v (ok _) = returns (refl, inr refl)

  create_or_update-Step :
      (source : String) (n : WorkflowNode) (o : Option WebhookSource) (w : World)
      → lookup source w.sources.webhooks ≡ o
      → Step (create_or_update uuid source n o) w
  unfolding Step generate_id update_configuration HasWebhook
  create_or_update-Step source n (some s) w e p h =
      save_as source (update_configuration w.now n.config s) (λ _. pure source) w
        (lookup-id (λ s. s.id) source s w.sources.webhooks p e) (λ v r. returns (refl, inr refl)) p
        h
  create_or_update-Step source n none w e p h =
      save_new-Step source (uuid w.ids) w.now n (record w { ids = suc w.ids }) p h

  after_source :
      (source : String) (n : WorkflowNode) (w : World)
      → Step (webhook_source_by_id source >>= create_or_update uuid source n) w
  unfolding webhook_source_by_id Step
  after_source source n w p h = create_or_update-Step source n _ w refl p h

  process-Step :
      (n : WorkflowNode) (b : Bool) (w : World)
      → Step
          (source_or_new uuid b (named_source n) >>= λ source.
            webhook_source_by_id source >>= create_or_update uuid source n)
          w
  unfolding generate_id HasWebhook Step
  process-Step n true w p h = after_source (uuid w.ids) n (record w { ids = suc w.ids }) p h
  process-Step n false w p h = after_source (named_source n) n w p h

-- Each source to which configuring the webhook provider maps a trigger node is a webhook source
-- afterwards, whatever fails on the way.
pub configure_webhook-HasWebhook :
    (uuid : ℕ → String) (xs : List Workflow) (w : World)
    → FiledWebhooks w
    → Ensures
        (λ mapped v. All (λ source. HasWebhook source v) (values mapped))
        Never
        (configure_webhook uuid xs w)
unfolding configure_webhook process_webhook_trigger_node Step Given
configure_webhook-HasWebhook uuid xs w p =
    Ensures-weaken (λ mapped v h. h.1) (λ _ _ n. n)
      (configure-All FiledWebhooks HasWebhook webhook_provider (process_webhook_trigger_node uuid)
        (λ n sources v. process-Step uuid sources n (named_source n == "") v) xs [] w p tt)
