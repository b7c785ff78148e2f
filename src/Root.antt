-- ===== src/Root.antt =====
-- rallyci/root.py: the futures of the objects that run, of the tasks, and of the cleanups. Futures and
-- objects are numbers; what the handlers of tasks and jobs do is in the modules of the stream, the job
-- and the status service.
pub mod Sound
pub mod Once
pub mod Waits
pub mod Start
pub mod Run
mod Tests
use rally_ci.Prelude.{
  ℕ, zero, suc, Bool, true, false, ◌||◌, not, Option, none, some, List, [], ◌∷◌, ◌++◌, eqb,
  if◌then◌else◌,
}
use rally_ci.Python.{key_error, Result, ok, err}
use rally_ci.Python.Exec.{Exec, pure, raise, gets, modify, ◌>>=◌, ◌>>◌}

-- `running_objects` and `tasks` map futures to objects; `running_cleanups` holds the cleanups that were
-- scheduled, in order, each given by the object that it cleans up. `made` is the next future.
pub record Root : Type 0 where
  pub running_objects : List (ℕ × ℕ)
  pub tasks : List (ℕ × ℕ)
  pub running_cleanups : List ℕ
  pub made : ℕ

-- `d[fut]` and `d.pop(fut)`
unfoldable pub find : ℕ → List (ℕ × ℕ) → Option ℕ
find fut [] = none
find fut ((f, obj) ∷ d) = if eqb f fut then some obj else find fut d

unfoldable pub without : ℕ → List (ℕ × ℕ) → List (ℕ × ℕ)
without fut [] = []
without fut ((f, obj) ∷ d) = let rest = without fut d in if eqb f fut then rest else (f, obj) ∷ rest

unfoldable pub start_obj : ℕ → Exec Root ℕ
start_obj obj r =
    (ok r.made, record r { running_objects = (r.made, obj) ∷ r.running_objects; made = suc r.made })

unfoldable pub start_task : ℕ → Exec Root (Unit {0})
unfolding start_obj
start_task task = do fut ← start_obj task; modify (λ r. record r { tasks = (fut, task) ∷ r.tasks })

-- The callback of every object's future
abbrev pub clean_up : ℕ → Option ℕ → Exec Root (Unit {0})
clean_up fut none r = (err key_error, r)
clean_up fut (some obj) r = (
  ok tt,
  record r {
    running_objects = without fut r.running_objects;
    running_cleanups = r.running_cleanups ++ obj ∷ [];
  },
)

unfoldable pub schedule_cleanup : ℕ → Exec Root (Unit {0})
unfolding find without
schedule_cleanup fut r = clean_up fut (find fut r.running_objects) r

-- The second callback of a task's future, `self.tasks.pop`; other futures have none.
unfoldable pub pop_task : ℕ → Root → Root
unfolding without
pop_task fut r = record r { tasks = without fut r.tasks }

-- The callbacks of a future that is done, in the order in which they were added; what one raises is
-- logged by the loop.
unfoldable pub done : ℕ → Root → Root
unfolding schedule_cleanup pop_task
done fut r = pop_task fut (schedule_cleanup fut r).1

abbrev after_call : Result (Unit {0}) → Result (Unit {0}) → Result (Unit {0})
after_call (ok tt) rest = rest
after_call (err e) rest = err e

-- `for cb in handlers: cb(a)`, as `start_task` and `job_updated` do
unfoldable pub call_each : {A : Type 0} → List (A → Result (Unit {0})) → A → Result (Unit {0})
call_each [] a = ok tt
call_each (cb ∷ cbs) a = after_call (cb a) (call_each cbs a)

-- `run_obj` and `run_cleanup`: what the object raises is logged, so that their futures never raise.
abbrev pub logged {ℓ} : {S : Type ℓ} → Exec S (Unit {0}) → Exec S (Unit {0})
logged m s = (ok tt, (m s).1)

-- What happens to the root: a service or a job starts, a task starts, or a future is done.
pub data Event : Type 0 where
  starts starts_task ends : ℕ → Event

unfoldable pub step : Root → Event → Root
unfolding start_obj start_task done
step r (starts obj) = (start_obj obj r).1
step r (starts_task task) = (start_task task r).1
step r (ends fut) = done fut r

unfoldable pub steps : Root → List Event → Root
unfolding step
steps r [] = r
steps r (e ∷ es) = steps (step r e) es

abbrev pub fresh : Root
fresh = record { running_objects = []; tasks = []; running_cleanups = []; made = 0 }

unfoldable pub has : ℕ → List ℕ → Bool
has fut [] = false
has fut (f ∷ fs) = eqb f fut || has fut fs

-- `for fut in done: if fut in fs: del(fs[fut])`
unfoldable pub without_all : List ℕ → List ℕ → List ℕ
unfolding has
without_all finished [] = []
without_all finished (f ∷ fs) =
    let rest = without_all finished fs in if has f finished then rest else f ∷ rest

-- The same loop on a dict with its values
unfoldable pub delete_done : List ℕ → List (ℕ × ℕ) → List (ℕ × ℕ)
unfolding has
delete_done finished [] = []
delete_done finished ((f, obj) ∷ d) =
    let rest = delete_done finished d in if has f finished then rest else (f, obj) ∷ rest
