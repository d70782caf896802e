-- ===== src/Store/Preserves.antt =====
-- Invariants of the world: operations that keep a property of it, whatever happens.
use operion.Base.{List, Bool, Option, none, some}
use operion.Models.Event.{Error}
use operion.Store.{
  World, Outcome, done, fail, ok, err, M, ◌>>=◌, pure, attempt, gets, modify, require, check, io,
}
use operion.Store.Ensures.{
  Ensures, returns, raises, Ensures-done, Ensures-fail, >>=-Ensures, Acts-Ensures, io-Reads,
}

-- The world after an operation, whether it has failed or not.
abbrev pub world_of : {A : Type 0} → Outcome A → World
world_of (done a w) = w
world_of (fail e w) = w

module _ (P : World → Type 0) where
  -- The property holds after an outcome.
  abbrev pub Leaves : {A : Type 0} → Outcome A → Type 0
  Leaves o = Ensures (λ _ w'. P w') (λ _ w'. P w') o

  -- If the property holds before `m`, it holds after it, also where `m` fails.
  abbrev pub Preserves : {A : Type 0} → M A → Type 0
  Preserves m = (w : World) → P w → Leaves (m w)

  module _ {A : Type 0} where
    pub Preserves-pure : (a : A) → Preserves (pure a)
    Preserves-pure a w p = returns p

    pub Preserves-gets : (f : World → A) → Preserves (gets f)
    Preserves-gets f w p = returns p

    pub Preserves-require : (e : Error) (o : Option A) → Preserves (require e o)
    Preserves-require e none w p = raises p
    Preserves-require e (some a) w p = returns p

    attempt-Leaves :
        (o : Outcome A)
        → Leaves o
        → Leaves (elim o [ done a w' ↦ done (ok a) w' | fail e w' ↦ done (err e) w' ])
    attempt-Leaves (done a w') h = returns (Ensures-done h)
    attempt-Leaves (fail e w') h = returns (Ensures-fail h)

    pub Preserves-attempt : (m : M A) → Preserves m → Preserves (attempt m)
    Preserves-attempt m h w p = attempt-Leaves (m w) (h w p)

  pub Preserves-check : (o : Option Error) → Preserves (check o)
  Preserves-check none w p = returns p
  Preserves-check (some e) w p = raises p

  pub Preserves-modify : (f : World → World) → ((w : World) → P w → P (f w)) → Preserves (modify f)
  Preserves-modify f h w p = returns (h w p)

  pub Preserves-io :
      (e : Error)
      → ((w : World) (gs : List Bool) → P w → P (record w { faults = gs }))
      → Preserves (io e)
  Preserves-io e h w p = Acts-Ensures (io-Reads e w) (λ gs _. h w gs p) (λ gs _. h w gs p)

  pub Preserves-bind :
      {A B : Type 0} (m : M A) (f : A → M B)
      → Preserves m
      → ((a : A) → Preserves (f a))
      → Preserves (m >>= f)
  Preserves-bind m f h k w p = >>=-Ensures m f w (h w p) (λ a v q. k a v q)

  pub Leaves-world_of : {A : Type 0} (o : Outcome A) → Leaves o → P (world_of o)
  Leaves-world_of (done a w) h = Ensures-done h
  Leaves-world_of (fail e w) h = Ensures-fail h
