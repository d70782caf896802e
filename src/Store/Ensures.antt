-- ===== src/Store/Ensures.antt =====
-- What a fallible operation ensures of its result and of the state, also when it fails.
use operion.Base.{any, List, [], ◌∷◌, Bool, true, false, ◌≡◌, refl}
use mathlib.Core.Path.{subst}
use operion.Models.Event.{Error}
use operion.Store.{World, Outcome, done, fail, Result, ok, err, M, ◌>>=◌, attempt, io, io_step}

-- `Q` holds of a result and `E` of an error, each with the state that it leaves.
pub data Ensures {A : Type 0} (Q : A → World → Type 0) (E : Error → World → Type 0)
    : Outcome A → Type 0 where
  returns : {a : A} {w : World} → Q a w → Ensures Q E (done a w)
  raises : {e : Error} {w : World} → E e w → Ensures Q E (fail e w)

-- No error.
abbrev pub Never : Error → World → Type 0
Never e w = ⊥

abbrev pub Returns : {A : Type 0} → Outcome A → Type 0
Returns {A} o = (a : A) × (w : World) × (o ≡ done a w)

module _ {A : Type 0} {Q : A → World → Type 0} {E : Error → World → Type 0} where
  pub Ensures-done : {a : A} {w : World} → Ensures Q E (done a w) → Q a w
  Ensures-done (returns q) = q

  pub Ensures-fail : {e : Error} {w : World} → Ensures Q E (fail e w) → E e w
  Ensures-fail (raises q) = q

  pub of_done : {o : Outcome A} {a : A} {w : World} → Ensures Q E o → o ≡ done a w → Q a w
  of_done h p = Ensures-done (subst (λ o. Ensures Q E o) p h)

  pub of_fail : {o : Outcome A} {e : Error} {w : World} → Ensures Q E o → o ≡ fail e w → E e w
  of_fail h p = Ensures-fail (subst (λ o. Ensures Q E o) p h)

  -- An outcome whose errors cannot arise is a result.
  pub Ensures-Returns :
      {o : Outcome A} → Ensures Q E o → ((e : Error) (w : World) → ¬ E e w) → Returns o
  Ensures-Returns (returns q) n = (_, _, refl)
  Ensures-Returns (raises q) n = absurd (n _ _ q)

  -- A weaker postcondition.
  pub Ensures-weaken :
      {Q' : A → World → Type 0} {E' : Error → World → Type 0} {o : Outcome A}
      → ((a : A) (w : World) → Q a w → Q' a w)
      → ((e : Error) (w : World) → E e w → E' e w)
      → Ensures Q E o
      → Ensures Q' E' o
  Ensures-weaken f g (returns q) = returns (f _ _ q)
  Ensures-weaken f g (raises q) = raises (g _ _ q)

-- An outcome that is a result if `P` holds fails only if it does not.
pub Ensures-unless :
    {A : Type 0} {P : Type 0} {Q : A → World → Type 0} {E : Error → World → Type 0} (o : Outcome A)
    → Ensures Q E o
    → (P → Returns o)
    → Ensures Q (λ e w. E e w × ¬ P) o
Ensures-unless (done a w) h k = returns (Ensures-done h)
Ensures-unless (fail e w) h k = raises (Ensures-fail h, λ p. cc (k p).2)

-- Two postconditions of one outcome.
pub Ensures-both :
    {A : Type 0} {Q Q' : A → World → Type 0} {E E' : Error → World → Type 0} (o : Outcome A)
    → Ensures Q E o
    → Ensures Q' E' o
    → Ensures (λ a w. Q a w × Q' a w) (λ e w. E e w × E' e w) o
Ensures-both (done a w) h k = returns (Ensures-done h, Ensures-done k)
Ensures-both (fail e w) h k = raises (Ensures-fail h, Ensures-fail k)

module _ {A B : Type 0} {P : A → World → Type 0} {Q : B → World → Type 0}
    {E : Error → World → Type 0} where
  continue-Ensures :
      (o : Outcome A) (f : A → M B)
      → Ensures P E o
      → ((a : A) (w : World) → P a w → Ensures Q E (f a w))
      → Ensures Q E (elim o [ done a w' ↦ f a w' | fail e w' ↦ fail e w' ])
  continue-Ensures (done a w) f h k = k a w (Ensures-done h)
  continue-Ensures (fail e w) f h k = raises (Ensures-fail h)

  pub >>=-Ensures :
      (m : M A) (f : A → M B) (w : World)
      → Ensures P E (m w)
      → ((a : A) (w' : World) → P a w' → Ensures Q E (f a w'))
      → Ensures Q E ((m >>= f) w)
  >>=-Ensures m f w h k = continue-Ensures (m w) f h k

-- No operation is to fail.
abbrev pub Quiet : List Bool → Type 0
Quiet fs = any (λ f. f) fs ≡ false

-- If no fault is to come in `w`, none is to come after it.
abbrev pub Kept : World → List Bool → Type 0
Kept w gs = Quiet w.faults → Quiet gs

-- An atomic operation: it gives `a` and the world `u`, or fails with `x` if a fault was to come and
-- then leaves `w`; the coming faults change in both cases.
pub data Acts {A : Type 0} (x : Error) (a : A) (w u : World) : Outcome A → Type 0 where
  acted : (gs : List Bool) → Kept w gs → Acts x a w u (done a (record u { faults = gs }))
  broke : (gs : List Bool) → ¬ Quiet w.faults → Acts x a w u (fail x (record w { faults = gs }))

-- One that only reads.
abbrev pub Reads : {A : Type 0} → Error → A → World → Outcome A → Type 0
Reads x a w o = Acts x a w w o

io_step-Reads :
    (fs : List Bool) (x : Error) (w : World) → w.faults ≡ fs → Reads x tt w (io_step fs x w)
unfolding io_step
io_step-Reads [] x w e = acted w.faults (λ h. h)
io_step-Reads (true ∷ gs) x w e = broke gs (λ h. cc)
io_step-Reads (false ∷ gs) x w e = acted gs (λ h. subst Quiet e h)

pub io-Reads : (x : Error) (w : World) → Reads x tt w (io x w)
unfolding io
io-Reads x w = io_step-Reads w.faults x w refl

-- A later operation's faults are those that the earlier one left.
widen :
    {A : Type 0} {x : Error} {a : A} {w u : World} (gs : List Bool) (o : Outcome A)
    → Kept w gs
    → Acts x a (record w { faults = gs }) u o
    → Acts x a w u o
widen gs o k (acted hs l) = acted hs (λ e. l (k e))
widen gs o k (broke hs n) = broke hs (λ e. n (k e))

-- The faults that the world of a reader holds do not matter.
narrow :
    {A : Type 0} {x : Error} {a : A} {w : World} (gs : List Bool) (o : Outcome A)
    → Reads x a (record w { faults = gs }) o
    → Acts x a (record w { faults = gs }) w o
narrow gs o (acted hs l) = acted hs l
narrow gs o (broke hs n) = broke hs n

module _ {A B : Type 0} {x : Error} {a : A} {w : World} where
  continue-Reads :
      {b : B} (o : Outcome A) (f : A → M B)
      → Reads x a w o
      → ((gs : List Bool)
          → Kept w gs
          → Reads x b (record w { faults = gs }) (f a (record w { faults = gs })))
      → Reads x b w (elim o [ done a w' ↦ f a w' | fail e w' ↦ fail e w' ])
  continue-Reads o f (acted gs k) h = widen gs _ k (narrow gs _ (h gs k))
  continue-Reads o f (broke gs n) h = broke gs n

  -- A reader after a reader is one.
  pub >>=-Reads :
      {b : B} (m : M A) (f : A → M B)
      → Reads x a w (m w)
      → ((gs : List Bool)
          → Kept w gs
          → Reads x b (record w { faults = gs }) (f a (record w { faults = gs })))
      → Reads x b w ((m >>= f) w)
  >>=-Reads m f r h = continue-Reads (m w) f r h

module _ {A B : Type 0} {x : Error} {a : A} {w u : World} where
  continue-Acts :
      {b : B} (o : Outcome A) (f : A → M B)
      → Reads x a w o
      → ((gs : List Bool)
          → Kept w gs
          → Acts x b (record w { faults = gs }) u (f a (record w { faults = gs })))
      → Acts x b w u (elim o [ done a w' ↦ f a w' | fail e w' ↦ fail e w' ])
  continue-Acts o f (acted gs k) h = widen gs _ k (h gs k)
  continue-Acts o f (broke gs n) h = broke gs n

  -- An atomic operation after a reader is one.
  pub >>=-Acts :
      {b : B} (m : M A) (f : A → M B)
      → Reads x a w (m w)
      → ((gs : List Bool)
          → Kept w gs
          → Acts x b (record w { faults = gs }) u (f a (record w { faults = gs })))
      → Acts x b w u ((m >>= f) w)
  >>=-Acts m f r h = continue-Acts (m w) f r h

  continue_act-Ensures :
      {Q : B → World → Type 0} {E : Error → World → Type 0} (o : Outcome A) (f : A → M B)
      → Acts x a w u o
      → ((gs : List Bool) → Kept w gs → Ensures Q E (f a (record u { faults = gs })))
      → ((gs : List Bool) → ¬ Quiet w.faults → E x (record w { faults = gs }))
      → Ensures Q E (elim o [ done a w' ↦ f a w' | fail e w' ↦ fail e w' ])
  continue_act-Ensures o f (acted gs k) h n = h gs k
  continue_act-Ensures o f (broke gs l) h n = raises (n gs l)

  -- Any operation after an atomic one.
  pub act-Ensures :
      {Q : B → World → Type 0} {E : Error → World → Type 0} (m : M A) (f : A → M B)
      → Acts x a w u (m w)
      → ((gs : List Bool) → Kept w gs → Ensures Q E (f a (record u { faults = gs })))
      → ((gs : List Bool) → ¬ Quiet w.faults → E x (record w { faults = gs }))
      → Ensures Q E ((m >>= f) w)
  act-Ensures m f r h n = continue_act-Ensures (m w) f r h n

-- An atomic operation that stands last.
pub Acts-Ensures :
    {A : Type 0} {x : Error} {a : A} {w u : World} {Q : A → World → Type 0}
    {E : Error → World → Type 0} {o : Outcome A}
    → Acts x a w u o
    → ((gs : List Bool) → Kept w gs → Q a (record u { faults = gs }))
    → ((gs : List Bool) → ¬ Quiet w.faults → E x (record w { faults = gs }))
    → Ensures Q E o
Acts-Ensures (acted gs k) q n = returns (q gs k)
Acts-Ensures (broke gs l) q n = raises (n gs l)

-- After `attempt` a result and an error are both results.
module _ {A : Type 0} {P : World → Type 0} where
  attempt_outcome-Ensures :
      {E : Error → World → Type 0} (o : Outcome A)
      → Ensures (λ _ w'. P w') (λ _ w'. P w') o
      → Ensures
          (λ _ w'. P w')
          E
          (elim o [ done a w' ↦ done (ok a) w' | fail e w' ↦ done (err e) w' ])
  attempt_outcome-Ensures (done a w) h = returns (Ensures-done h)
  attempt_outcome-Ensures (fail e w) h = returns (Ensures-fail h)

  pub attempt-Ensures :
      {E : Error → World → Type 0} (m : M A) (w : World)
      → Ensures (λ _ w'. P w') (λ _ w'. P w') (m w)
      → Ensures (λ _ w'. P w') E (attempt m w)
  attempt-Ensures m w h = attempt_outcome-Ensures (m w) h

-- Any operation after an atomic one whose error is a value.
module _ {A B : Type 0} {x : Error} {a : A} {w u : World} {Q : B → World → Type 0}
    {E : Error → World → Type 0} where
  attempt_act_outcome-Ensures :
      (o : Outcome A) (f : Result A → M B)
      → Acts x a w u o
      → ((gs : List Bool) → Kept w gs → Ensures Q E (f (ok a) (record u { faults = gs })))
      → ((gs : List Bool) → ¬ Quiet w.faults → Ensures Q E (f (err x) (record w { faults = gs })))
      → Ensures Q E ((attempt (λ _. o) >>= f) w)
  attempt_act_outcome-Ensures o f (acted gs k) h n = h gs k
  attempt_act_outcome-Ensures o f (broke gs l) h n = n gs l

  pub attempt_act-Ensures :
      (m : M A) (f : Result A → M B)
      → Acts x a w u (m w)
      → ((gs : List Bool) → Kept w gs → Ensures Q E (f (ok a) (record u { faults = gs })))
      → ((gs : List Bool) → ¬ Quiet w.faults → Ensures Q E (f (err x) (record w { faults = gs })))
      → Ensures Q E ((attempt m >>= f) w)
  attempt_act-Ensures m f r h n = attempt_act_outcome-Ensures (m w) f r h n
