-- ===== src/Postgres/Effects.antt =====
-- What statements and transactions do to the tables, whatever fails.
use operion.Base.{ℕ, suc, Bool, true, false, ◌≡◌, refl, List, Option, none, some}
use operion.Models.Event.{Error, io_failed}
use operion.Models.Database.{Database}
use operion.Store.{World, Outcome, done, fail, M, ◌>>=◌, ◌>>◌, io, modify, check, require}
use operion.Store.Ensures.{
  Ensures, returns, raises, Acts, acted, broke, io-Reads, >>=-Reads, >>=-Acts,
}
use operion.Postgres.{
  select, with_database, violated, exec_unless, exec, begin, or_rollback, or_abandon,
}

-- An operation gives `a` and the world `u`, but for the coming faults, and then `P` holds; or it
-- fails.
pub data Gives {A : Type 0} (P : Type 0) (a : A) (u : World) : Outcome A → Type 0 where
  gave : (gs : List Bool) → P → Gives P a u (done a (record u { faults = gs }))
  failed : {e : Error} {w : World} → Gives P a u (fail e w)

-- The coming faults of the world that is given do not matter.
pub any_faults :
    {A : Type 0} {P : Type 0} {a : A} {u : World} (hs : List Bool) (o : Outcome A)
    → Gives P a (record u { faults = hs }) o
    → Gives P a u o
any_faults hs o (gave gs p) = gave gs p
any_faults hs o failed = failed

pub Gives-and :
    {A : Type 0} {P Q : Type 0} {a : A} {u : World} (o : Outcome A)
    → (P → Q)
    → Gives P a u o
    → Gives Q a u o
Gives-and o f (gave gs p) = gave gs (f p)
Gives-and o f failed = failed

module _ {A B : Type 0} {P Q : Type 0} {a : A} {b : B} {u v : World} where
  continue-Gives :
      (o : Outcome A) (f : A → M B)
      → Gives P a u o
      → ((gs : List Bool) → P → Gives Q b v (f a (record u { faults = gs })))
      → Gives Q b v (elim o [ done a w' ↦ f a w' | fail e w' ↦ fail e w' ])
  continue-Gives o f (gave gs p) k = k gs p
  continue-Gives o f failed k = failed

  pub >>=-Gives :
      (m : M A) (f : A → M B) (w : World)
      → Gives P a u (m w)
      → ((gs : List Bool) → P → Gives Q b v (f a (record u { faults = gs })))
      → Gives Q b v ((m >>= f) w)
  >>=-Gives m f w h k = continue-Gives (m w) f h k

Acts-Gives :
    {A : Type 0} {x : Error} {a : A} {w u : World} (o : Outcome A)
    → Acts x a w u o
    → Gives Unit a u o
Acts-Gives o (acted gs k) = gave gs tt
Acts-Gives o (broke gs n) = failed

pub io-Gives : (x : Error) (w : World) → Gives Unit tt w (io x w)
io-Gives x w = Acts-Gives (io x w) (io-Reads x w)

pub exec_unless-Gives :
    (violates : ℕ → Database → Bool) (f : ℕ → Database → Database) (w : World)
    → Gives Unit tt (with_database (f w.now w.database) w) (exec_unless violates f w)
unfolding exec_unless
exec_unless-Gives violates f w =
    >>=-Gives (io io_failed) _ w (io-Gives io_failed w)
      (λ gs _. unless gs (violates w.now w.database))
  where
    unless :
        (gs : List Bool) (v : Bool)
        → Gives Unit tt (with_database (f w.now w.database) w) (
            (check (violated v) >> modify (λ w. with_database (f w.now w.database) w))
              (record w { faults = gs }))
    unless gs true = failed
    unless gs false = gave gs tt

-- A value that the code needs is there if the operation gives something.
pub require-Gives :
    {A B : Type 0} {P : Type 0} {b : B} {u : World} (x : Error) (o : Option A) (f : A → M B)
    (w : World)
    → ((a : A) → o ≡ some a → Gives P b u (f a w))
    → Gives P b u ((require x o >>= f) w)
require-Gives x none f w k = failed
require-Gives x (some a) f w k = k a refl

module _ {A B : Type 0} {P : Type 0} {a : A} {u : World} {Q : B → World → Type 0}
    {E : Error → World → Type 0} (before : Database) where
  rollback_outcome-Ensures :
      (o : Outcome A) (f : A → M B)
      → Gives P a u o
      → ((gs : List Bool) → P → Ensures Q E (f a (record u { faults = gs })))
      → ((e : Error) (w : World) → E e (with_database before w))
      → Ensures Q E ((or_rollback before (λ _. o) >>= f) u)
  unfolding or_rollback
  rollback_outcome-Ensures o f (gave gs p) k n = k gs p
  rollback_outcome-Ensures o f (failed {e = e} {w = v}) k n = raises (n e v)

  -- Any operation after the statements of a transaction.
  pub rollback-Ensures :
      (m : M A) (f : A → M B) (w : World)
      → Gives P a u (m w)
      → ((gs : List Bool) → P → Ensures Q E (f a (record u { faults = gs })))
      → ((e : Error) (w : World) → E e (with_database before w))
      → Ensures Q E ((or_rollback before m >>= f) w)
  unfolding or_rollback
  rollback-Ensures m f w h k n = rollback_outcome-Ensures (m w) f h k n

  abandon_outcome-Ensures :
      (o : Outcome A) (f : A → M B)
      → Gives P a u o
      → ((gs : List Bool) → P → Ensures Q E (f a (record u { faults = gs })))
      → ((e : Error) (w : World)
          → E e (with_database (record before { abandoned = suc before.abandoned }) w))
      → Ensures Q E ((or_abandon before (λ _. o) >>= f) u)
  unfolding or_abandon
  abandon_outcome-Ensures o f (gave gs p) k n = k gs p
  abandon_outcome-Ensures o f (failed {e = e} {w = v}) k n = raises (n e v)

  -- Any operation after statements whose error leaves the transaction open.
  pub abandon-Ensures :
      (m : M A) (f : A → M B) (w : World)
      → Gives P a u (m w)
      → ((gs : List Bool) → P → Ensures Q E (f a (record u { faults = gs })))
      → ((e : Error) (w : World)
          → E e (with_database (record before { abandoned = suc before.abandoned }) w))
      → Ensures Q E ((or_abandon before m >>= f) w)
  unfolding or_abandon
  abandon-Ensures m f w h k n = abandon_outcome-Ensures (m w) f h k n

-- A query.
pub select-Reads :
    {A : Type 0} (f : Database → A) (w : World) → Acts io_failed (f w.database) w w (select f w)
select-Reads f w = >>=-Reads (io io_failed) _ (io-Reads io_failed w) (λ gs k. acted gs (λ h. h))

pub begin-Reads : (w : World) → Acts io_failed w.database w w (begin w)
unfolding begin
begin-Reads w = select-Reads (λ d. d) w

-- A statement that violates no constraint is atomic.
pub exec_unless-Acts :
    (violates : ℕ → Database → Bool) (f : ℕ → Database → Database) (w : World)
    → violates w.now w.database ≡ false
    → Acts io_failed tt w (with_database (f w.now w.database) w) (exec_unless violates f w)
unfolding exec_unless
exec_unless-Acts violates f w v =
    >>=-Acts (io io_failed) _ (io-Reads io_failed w) (λ gs k. rw v (acted gs (λ h. h)))

pub exec-Acts :
    (f : ℕ → Database → Database) (w : World)
    → Acts io_failed tt w (with_database (f w.now w.database) w) (exec f w)
exec-Acts f w = exec_unless-Acts _ f w refl

-- A transaction whose errors all roll it back.
pub undone-Ensures :
    {A : Type 0} {Q : A → World → Type 0} {R : Type 0} (before : Database) (m : M A) (w : World)
    → Ensures Q (λ e w'. R) (m w)
    → Ensures Q (λ e w'. R × (w'.database ≡ before)) (or_rollback before m w)
unfolding or_rollback
undone-Ensures {A = A} {Q = Q} {R = R} before m w h = undone (m w) h
  where
    undone :
        (o : Outcome A)
        → Ensures Q (λ e w'. R) o
        → Ensures Q (λ e w'. R × (w'.database ≡ before)) (or_rollback before (λ _. o) w)
    undone o (returns q) = returns q
    undone o (raises r) = raises (r, refl)
