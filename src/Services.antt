-- ===== src/Services.antt =====
-- The activator and the workers at work on one world: requests that they handle one after another.
use operion.Base.{ℕ, String, List, [], ◌∷◌}
use operion.Models.Event.{SourceEvent, NodeActivation}
use operion.Store.{World}
use operion.Store.Preserves.{world_of, Leaves-world_of}
use operion.Registry.{Registry}
use operion.Activator.{handle_source_event}
use operion.Activator.Grounded.{handle_source_event-Grounded}
use operion.Worker.Handler.{handle_node_activation}
use operion.Worker.Handler.Grounded.{handle_node_activation-Preserves}
use operion.Worker.Grounded.{Grounded}

-- What the activator or a worker takes from the bus.
pub data Request : Type 0 where
  source : SourceEvent → Request
  node : NodeActivation → Request

module _ (generate uuid : ℕ → String) (r : Registry) where
  -- The world after a request has been handled, whether the handler has failed or not.
  unfoldable pub handle : Request → World → World
  handle (source e) w = world_of (handle_source_event generate e w)
  handle (node a) w = world_of (handle_node_activation uuid r a w)

  unfoldable pub handle_all : List Request → World → World
  handle_all [] w = w
  handle_all (q ∷ qs) w = handle_all qs (handle q w)

  handle-Grounded : (q : Request) (w : World) → Grounded w → Grounded (handle q w)
  unfolding handle
  handle-Grounded (source e) w g = handle_source_event-Grounded generate e w g
  handle-Grounded (node a) w g =
      Leaves-world_of Grounded _ (handle_node_activation-Preserves uuid r a w g)

-- If the execution context of each published activation has been written in full, this is so after
-- the activator and the workers have handled any sequence of source events and activations, whatever
-- fails. A write that fails may damage the file of a context that was written in full before; later
-- reads of it then fail.
pub handle_all-Grounded :
    (generate uuid : ℕ → String) (r : Registry) (qs : List Request) (w : World)
    → Grounded w
    → Grounded (handle_all generate uuid r qs w)
unfolding handle_all
handle_all-Grounded generate uuid r [] w g = g
handle_all-Grounded generate uuid r (q ∷ qs) w g =
    handle_all-Grounded generate uuid r qs (handle generate uuid r q w)
      (handle-Grounded generate uuid r q w g)
