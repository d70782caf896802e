-- ===== src/Providers/Scheduler/Sound.antt =====
-- The schedules in the memory and in the file of the scheduler's persistence stand under their
-- identifiers and under those of their sources, whatever the provider does
-- (pkg/providers/scheduler).
use operion.Base.{
  String, ◌≡◌, sym, subst, ◌∙◌, List, [], ◌∷◌, All, Dict, insert, values, Option, none, some, Filed,
  insert-Filed, delete-Filed,
}
use operion.Models.Event.{Error, io_failed}
use operion.Models.Source.{Schedule}
use operion.Store.{World, M, ◌>>=◌, modify, io}
use operion.Store.Preserves.{Preserves, Preserves-modify, Preserves-io, Preserves-bind}
use operion.Providers.Scheduler.{
  save_schedule, save_schedules_to_file, write_schedules, delete_schedule,
  delete_schedule_by_source_id, first_with_source, without, load_schedules, loaded,
}

abbrev pub Sound : Dict Schedule → Type 0
Sound m = Filed (λ s. s.id) m × Filed (λ s. s.source_id) m

-- In the memory and in the file.
abbrev pub SoundSchedules : World → Type 0
SoundSchedules w = Sound w.sources.schedules × Sound w.sources.schedules_file

abbrev pub Keeps : {A : Type 0} → M A → Type 0
Keeps m = Preserves SoundSchedules m

abbrev pub IsOwn : Schedule → Type 0
IsOwn s = s.id ≡ s.source_id

pub Keeps-bind :
    {A B : Type 0} (m : M A) (f : A → M B) → Keeps m → ((a : A) → Keeps (f a)) → Keeps (m >>= f)
Keeps-bind = Preserves-bind SoundSchedules

pub Keeps-io : (e : Error) → Keeps (io e)
Keeps-io e = Preserves-io SoundSchedules e (λ w gs h. h)

insert-Sound : (s : Schedule) (m : Dict Schedule) → IsOwn s → Sound m → Sound (insert s.id s m)
insert-Sound s m e (p, q) = (
  insert-Filed (λ s. s.id) s m p,
  subst (λ (x : String). Filed (λ s. s.source_id) (insert x s m)) (sym e)
      (insert-Filed (λ s. s.source_id) s m q),
)

pub save_schedules_to_file-Keeps : Keeps save_schedules_to_file
unfolding save_schedules_to_file
save_schedules_to_file-Keeps =
    Keeps-bind (io io_failed) (λ _. modify write_schedules) (Keeps-io io_failed)
      (λ _. Preserves-modify SoundSchedules write_schedules (λ w h. (h.0, h.0)))

pub save_schedule-Keeps : (s : Schedule) → IsOwn s → Keeps (save_schedule s)
unfolding save_schedule
save_schedule-Keeps s e =
    Keeps-bind (modify _) (λ _. save_schedules_to_file)
      (Preserves-modify SoundSchedules _ (λ w h. (insert-Sound s w.sources.schedules e h.0, h.1)))
      (λ _. save_schedules_to_file-Keeps)

pub delete_schedule-Keeps : (id : String) → Keeps (delete_schedule id)
unfolding delete_schedule
delete_schedule-Keeps id =
    Keeps-bind (modify _) (λ _. save_schedules_to_file)
      (Preserves-modify SoundSchedules _ (λ w h.
        ((delete-Filed (λ s. s.id) id _ h.0.0, delete-Filed (λ s. s.source_id) id _ h.0.1), h.1)))
      (λ _. save_schedules_to_file-Keeps)

without-Sound : (o : Option Schedule) (m : Dict Schedule) → Sound m → Sound (without o m)
without-Sound none m h = h
without-Sound (some s) m h =
    (delete-Filed (λ s. s.id) s.id m h.0, delete-Filed (λ s. s.source_id) s.id m h.1)

pub delete_schedule_by_source_id-Keeps : (id : String) → Keeps (delete_schedule_by_source_id id)
unfolding delete_schedule_by_source_id
delete_schedule_by_source_id-Keeps id =
    Keeps-bind (modify _) (λ _. save_schedules_to_file)
      (Preserves-modify SoundSchedules _
        (λ w h. (without-Sound (first_with_source id (values w.sources.schedules)) _ h.0, h.1)))
      (λ _. save_schedules_to_file-Keeps)

pub Sound-values : (m : Dict Schedule) → Sound m → All IsOwn (values m)
Sound-values [] h = tt
Sound-values ((k, s) ∷ m) ((p, q, h), (p', q', h')) = (p ∙ sym p', Sound-values m (h, h'))

loaded-Sound :
    (ss : List Schedule) (m : Dict Schedule) → All IsOwn ss → Sound m → Sound (loaded ss m)
unfolding loaded
loaded-Sound [] m a h = h
loaded-Sound (s ∷ ss) m (e, a) h = loaded-Sound ss (insert s.id s m) a (insert-Sound s m e h)

pub load_schedules-Keeps : Keeps load_schedules
unfolding load_schedules
load_schedules-Keeps = Keeps-bind (io io_failed) _ (Keeps-io io_failed) (λ _.
    Preserves-modify SoundSchedules _ (λ w h.
      (loaded-Sound (values w.sources.schedules_file) [] (Sound-values _ h.1) (tt, tt), h.1)))
