-- ===== src/Periodic.antt =====
-- rallyci/common/periodictask.py: a task, and the timers that it has at the event loop.
pub mod Calls
mod Tests
use rally_ci.Prelude.{
  ℕ, suc, Bool, true, false, Option, none, some, List, [], ◌∷◌, ◌++◌, eqb, if◌then◌else◌,
}

-- What a timer calls: `self.method` or `self._run`.
pub data Callback : Type 0 where
  method run_again : Callback

-- `pending` are the timers that have neither fired nor been cancelled, by number; `made` is the next
-- number; `calls` counts the calls of the method.
pub record Periodic : Type 0 where
  pub active : Bool
  pub handler : Option ℕ
  pub pending : List (ℕ × Callback)
  pub made : ℕ
  pub calls : ℕ

-- `PeriodicTask.__init__`
abbrev pub new_periodic : Periodic
new_periodic = record { active = false; handler = none; pending = []; made = 0; calls = 0 }

unfoldable pub find : ℕ → List (ℕ × Callback) → Option Callback
find t [] = none
find t ((u, cb) ∷ ts) = if eqb u t then some cb else find t ts

unfoldable pub drop : ℕ → List (ℕ × Callback) → List (ℕ × Callback)
drop t [] = []
drop t ((u, cb) ∷ ts) = let rest = drop t ts in if eqb u t then ts else (u, cb) ∷ rest

-- `self._handler = self._loop.call_later(self._interval, cb)`
abbrev pub call_later : Callback → Periodic → Periodic
call_later cb p = record p {
  handler = some p.made;
  pending = p.pending ++ (p.made, cb) ∷ [];
  made = suc p.made;
}

abbrev pub run : Periodic → Periodic
run p = call_later method p

abbrev pub start : Periodic → Periodic
start p = call_later run_again p

abbrev cancel : Option ℕ → Periodic → Periodic
cancel none p = p
cancel (some t) p = record p { pending = drop t p.pending }

-- A timer that has fired is not pending, and to cancel it does nothing.
unfoldable pub stop : Periodic → Periodic
unfolding drop
stop p = cancel p.handler p

abbrev pub call : Option Callback → Periodic → Bool × Periodic
call none p = (false, p)
call (some method) p = (true, record p { calls = suc p.calls })
call (some run_again) p = (false, run p)

-- The loop fires the timer `t`, if it is pending. The first part is whether the method is called.
unfoldable pub fire : ℕ → Periodic → Bool × Periodic
unfolding find drop
fire t p = call (find t p.pending) (record p { pending = drop t p.pending })

-- What happens to a task.
pub data Event : Type 0 where
  starts stops : Event
  fires : ℕ → Event

unfoldable pub step : Periodic → Event → Periodic
unfolding stop fire
step p starts = start p
step p stops = stop p
step p (fires t) = (fire t p).1

unfoldable pub steps : Periodic → List Event → Periodic
unfolding step
steps p [] = p
steps p (e ∷ es) = steps (step p e) es
