-- ===== src/Store/Keeps.antt =====
-- Operations that leave a part of the world alone, whatever happens.
use operion.Base.{◌≡◌, refl, ◌∙◌, List, Bool, Option, none, some}
use operion.Models.Event.{Error}
use operion.Store.{
  World, Outcome, done, fail, ok, err, M, ◌>>=◌, pure, throw, attempt, gets, modify, require, check,
  io,
}
use operion.Store.Ensures.{
  Ensures, returns, raises, Ensures-done, Ensures-fail, Ensures-weaken, >>=-Ensures, Acts-Ensures,
  io-Reads,
}

module _ {X : Type 0} (part : World → X) where
  -- The part after `m` is the part before it, also where `m` fails.
  abbrev pub Keeps : {A : Type 0} → M A → Type 0
  Keeps m = (w : World) → Ensures (λ _ w'. part w' ≡ part w) (λ _ w'. part w' ≡ part w) (m w)

  module _ {A : Type 0} where
    pub Keeps-pure : (a : A) → Keeps (pure a)
    Keeps-pure a w = returns refl

    pub Keeps-throw : (e : Error) → Keeps {A = A} (throw e)
    Keeps-throw e w = raises refl

    pub Keeps-gets : (f : World → A) → Keeps (gets f)
    Keeps-gets f w = returns refl

    pub Keeps-require : (e : Error) (o : Option A) → Keeps (require e o)
    Keeps-require e none w = raises refl
    Keeps-require e (some a) w = returns refl

    attempt_outcome :
        (w : World) (o : Outcome A)
        → Ensures (λ _ w'. part w' ≡ part w) (λ _ w'. part w' ≡ part w) o
        → Ensures
            (λ _ w'. part w' ≡ part w)
            (λ _ w'. part w' ≡ part w)
            (elim o [ done a w' ↦ done (ok a) w' | fail e w' ↦ done (err e) w' ])
    attempt_outcome w (done a w') h = returns (Ensures-done h)
    attempt_outcome w (fail e w') h = returns (Ensures-fail h)

    pub Keeps-attempt : (m : M A) → Keeps m → Keeps (attempt m)
    Keeps-attempt m h w = attempt_outcome w (m w) (h w)

  pub Keeps-check : (o : Option Error) → Keeps (check o)
  Keeps-check none w = returns refl
  Keeps-check (some e) w = raises refl

  pub Keeps-modify : (f : World → World) → ((w : World) → part (f w) ≡ part w) → Keeps (modify f)
  Keeps-modify f h w = returns (h w)

  pub Keeps-io :
      (e : Error)
      → ((w : World) (gs : List Bool) → part (record w { faults = gs }) ≡ part w)
      → Keeps (io e)
  Keeps-io e h w = Acts-Ensures (io-Reads e w) (λ gs _. h w gs) (λ gs _. h w gs)

  pub Keeps-bind :
      {A B : Type 0} (m : M A) (f : A → M B) → Keeps m → ((a : A) → Keeps (f a)) → Keeps (m >>= f)
  Keeps-bind m f h k w =
      >>=-Ensures m f w (h w) (λ a v e. Ensures-weaken (λ _ u p. p ∙ e) (λ _ u p. p ∙ e) (k a v))
