-- ===== src/Store/Workflows/Effects.antt =====
-- What the workflow repository's operations read and write.
use operion.Base.{String, List, [], ◌∷◌, Dict, keys, lookup}
use operion.Models.Workflow.{Workflow}
use operion.Models.Event.{io_failed}
use operion.Store.{World, gets, io}
use operion.Store.Ensures.{Acts, Reads, acted, io-Reads, >>=-Reads, >>=-Acts}
use operion.Store.Workflows.{get_by_id, with_found, get_each, get_all, stamp, write_file, save}

pub get_by_id-Reads :
    (id : String) (w : World) → Reads io_failed (lookup id w.workflows) w (get_by_id id w)
unfolding get_by_id
get_by_id-Reads id w =
    >>=-Reads (io io_failed) (λ _. gets (λ w. lookup id w.workflows)) (io-Reads io_failed w)
      (λ gs k. acted gs (λ e. e))

-- The workflows in the files of the given names.
abbrev pub loaded : Dict Workflow → List String → List Workflow
loaded m [] = []
loaded m (id ∷ ids) = with_found (lookup id m) (loaded m ids)

pub get_each-Reads :
    (ids : List String) (w : World) → Reads io_failed (loaded w.workflows ids) w (get_each ids w)
unfolding get_each
get_each-Reads [] w = acted w.faults (λ e. e)
get_each-Reads (id ∷ ids) w = >>=-Reads (get_by_id id) _ (get_by_id-Reads id w) (λ gs k.
    >>=-Reads (get_each ids) _ (get_each-Reads ids (record w { faults = gs }))
      (λ hs l. acted hs (λ e. e)))

pub get_all-Reads :
    (w : World) → Reads io_failed (loaded w.workflows (keys w.workflows)) w (get_all w)
unfolding get_all
get_all-Reads w =
    >>=-Reads (io io_failed) _ (io-Reads io_failed w)
      (λ gs k. get_each-Reads (keys w.workflows) (record w { faults = gs }))

-- The world after `x` has been saved.
abbrev pub saved : Workflow → World → World
saved x w = record w { workflows = write_file ".json" x.id (stamp w.now x) w.workflows }

pub save-Acts : (x : Workflow) (w : World) → Acts io_failed (stamp w.now x) w (saved x w) (save x w)
unfolding save stamp
save-Acts x w = >>=-Acts (io io_failed) _ (io-Reads io_failed w) (λ gs k. acted gs (λ e. e))
