-- ===== src/Status/Steps.antt =====
-- The life of the status page: connections that open and end, and the events that it reports.
use rally_ci.Prelude.{ℕ, List, [], ◌∷◌, if◌then◌else◌}
use rally_ci.Python.{Exception, Result}
use rally_ci.Python.Value.{Value}
use rally_ci.Job.{Job}
use rally_ci.Task.Create.{Task}
use rally_ci.Root.{has}
use rally_ci.Status.{
  Status, task_started_cb, job_status_cb, task_finished_cb, tick, leave, on_exception, connect,
}

-- What `ws.receive` comes back with.
pub data Received : Type 0 where
  message close : Received
  raises : Exception → Received

-- The time comes first, where the event has one.
pub data Event : Type 0 where
  opens : ℕ → List Task → Event
  receives : ℕ → Received → Event
  task_starts : ℕ → Task → Event
  job_updates : ℕ → Job → Event
  task_ends : ℕ → Task → Event
  ticks : ℕ → ℕ → Event

-- The loop of `ws`
unfoldable pub receive : ℕ → Received → Status → Status
unfolding leave on_exception
receive c message s = s
receive c close s = leave c s
receive c (raises e) s = on_exception c e s

module _ (deliver : ℕ → ℕ → Value → Result (Unit {0})) where
  unfoldable pub step : Status → Event → Status
  unfolding connect task_started_cb job_status_cb task_finished_cb tick receive
  step s (opens now tasks) = connect deliver now tasks s
  step s (receives c r) = if has c s.serving then receive c r s else s
  step s (task_starts now t) = (task_started_cb deliver now t s).1
  step s (job_updates now j) = (job_status_cb deliver now j s).1
  step s (task_ends now t) = (task_finished_cb deliver now t s).1
  step s (ticks t memory) = tick deliver t memory s

  unfoldable pub steps : Status → List Event → Status
  unfolding step
  steps s [] = s
  steps s (e ∷ es) = steps (step s e) es
