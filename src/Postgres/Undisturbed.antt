-- ===== src/Postgres/Undisturbed.antt =====
-- Statements and transactions of PostgreSQL when nothing fails.
use operion.Base.{ℕ, Bool, false, ◌≡◌, refl, ap, []}
use operion.Models.Database.{Database}
use operion.Models.Event.{Error}
use operion.Store.{World, done, fail, M, ◌>>=◌, ◌>>◌, io, io_step}
use operion.Postgres.{with_database, exec_unless, begin, or_rollback, or_abandon}

pub exec_unless-done :
    (violates : ℕ → Database → Bool) (f : ℕ → Database → Database) (w : World)
    → w.faults ≡ []
    → violates w.now w.database ≡ false
    → exec_unless violates f w ≡ done tt (with_database (f w.now w.database) w)
unfolding exec_unless io io_step
exec_unless-done violates f w e v = rw (e, v) refl

pub >>=-done :
    {A B : Type 0} (m : M A) (f : A → M B) (w u : World) (a : A)
    → m w ≡ done a u
    → (m >>= f) w ≡ f a u
>>=-done m f w u a e = ap (λ o. elim o [ done b w' ↦ f b w' | fail x w' ↦ fail x w' ]) e

pub >>-done :
    {B : Type 0} (m : M (Unit {0})) (k : M B) (w u : World) → m w ≡ done tt u → (m >> k) w ≡ k u
>>-done m k w u e = >>=-done m (λ _. k) w u tt e

pub or_rollback-done :
    {A : Type 0} (before : Database) (m : M A) (w u : World) (a : A)
    → m w ≡ done a u
    → or_rollback before m w ≡ done a u
unfolding or_rollback
or_rollback-done before m w u a e = rw (or_rollback, e) refl

pub or_abandon-done :
    {A : Type 0} (before : Database) (m : M A) (w u : World) (a : A)
    → m w ≡ done a u
    → or_abandon before m w ≡ done a u
unfolding or_abandon
or_abandon-done before m w u a e = rw (or_abandon, e) refl

pub io-done : (x : Error) (w : World) → w.faults ≡ [] → io x w ≡ done tt w
unfolding io io_step
io-done x w e = rw e refl

pub begin-done : (w : World) → w.faults ≡ [] → begin w ≡ done w.database w
unfolding begin io io_step
begin-done w e = rw e refl
