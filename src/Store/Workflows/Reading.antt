-- ===== src/Store/Workflows/Reading.antt =====
-- Reading workflows keeps any property of the world that says nothing of coming faults.
use operion.Base.{String, List, [], ◌∷◌, Bool}
use operion.Models.Event.{io_failed}
use operion.Store.{World, gets, io}
use operion.Store.Preserves.{
  Preserves, Preserves-pure, Preserves-gets, Preserves-io, Preserves-bind,
}
use operion.Store.Workflows.{get_by_id, get_each, get_all}

module _ (P : World → Type 0)
    (calm : (w : World) (gs : List Bool) → P w → P (record w { faults = gs })) where
  pub get_by_id-Preserves : (id : String) → Preserves P (get_by_id id)
  unfolding get_by_id
  get_by_id-Preserves id =
      Preserves-bind P (io io_failed) _ (Preserves-io P io_failed calm) (λ _. Preserves-gets P _)

  get_each-Preserves : (ids : List String) → Preserves P (get_each ids)
  unfolding get_each
  get_each-Preserves [] = Preserves-pure P []
  get_each-Preserves (id ∷ ids) =
      Preserves-bind P (get_by_id id) _ (get_by_id-Preserves id)
        (λ x. Preserves-bind P (get_each ids) _ (get_each-Preserves ids) (λ xs. Preserves-pure P _))

  pub get_all-Preserves : Preserves P get_all
  unfolding get_all
  get_all-Preserves =
      Preserves-bind P (io io_failed) _ (Preserves-io P io_failed calm)
        (λ _. Preserves-bind P (gets _) _ (Preserves-gets P _) (λ ids. get_each-Preserves ids))
