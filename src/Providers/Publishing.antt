-- ===== src/Providers/Publishing.antt =====
-- Publishing a source event (cmd/operion-source-manager/manager.go, `createSourceEventCallback`).
use operion.Base.{String, Bool, ◌≡◌, List, Dict, none}
use operion.Models.Value.{Value}
use operion.Models.Event.{SourceEvent, new_source_event, validate_source_event, publish_failed}
use operion.Store.{World, io, check}
use operion.Store.Preserves.{
  Preserves, Preserves-bind, Preserves-check, Preserves-io, Preserves-modify,
}
use operion.Store.Ensures.{Acts, acted, io-Reads, >>=-Acts}
use operion.Providers.{callback, publish_source_event, with_event}

-- The callback publishes a valid event as one step.
pub callback-Acts :
    (source_id type event : String) (m : Dict Value) (w : World)
    → validate_source_event (new_source_event source_id type event m) ≡ none
    → Acts publish_failed tt w
        (with_event (new_source_event source_id type event m) w)
        (callback source_id type event m w)
unfolding callback publish_source_event
callback-Acts source_id type event m w v =
    rw v (>>=-Acts (io publish_failed) _ (io-Reads publish_failed w) (λ gs k. acted gs (λ h. h)))

-- It keeps what says nothing of coming faults and of the events on the bus.
pub callback-Preserves :
    (P : World → Type 0)
    → ((w : World) (gs : List Bool) → P w → P (record w { faults = gs }))
    → ((w : World) (e : SourceEvent) → P w → P (with_event e w))
    → (source_id type event : String) (m : Dict Value)
    → Preserves P (callback source_id type event m)
unfolding callback publish_source_event
callback-Preserves P calm silent source_id type event m =
    Preserves-bind P (check (validate_source_event e)) _
      (Preserves-check P (validate_source_event e))
      (λ _.
        Preserves-bind P (check (validate_source_event e)) _
          (Preserves-check P (validate_source_event e))
          (λ _.
            Preserves-bind P (io publish_failed) _ (Preserves-io P publish_failed calm)
              (λ _. Preserves-modify P (with_event e) (λ w h. silent w e h))))
  where
    e : SourceEvent
    e = new_source_event source_id type event m
