-- ===== src/Legacy/Environments.antt =====
-- rallyci/environments/event.py and rallyci/environments/dummy.py, which put values into the environment
-- of a job. They read `job.event.raw_event`, which the tasks of today do not have.
use rally_ci.Prelude.{String, Option, none, some, [], ◌∷◌}
use rally_ci.Prelude.Dict.{Dict, insert, update}
use rally_ci.Python.{attribute_error, Result, ok, err}
use rally_ci.Python.Exec.{Exec, pure, lift, modify, ◌>>=◌, ◌>>◌}
use rally_ci.Python.Value.{Value}
use rally_ci.Python.Text.{split}
use rally_ci.Job.{Job}
use rally_ci.Task.Env.{follow_path}

abbrev set_env : String → Value → Exec Job (Unit {0})
set_env k value = modify (λ j. record j { env = insert k value j.env })

-- `Class.build` of the event environment: unlike `Task._get_env` it lets a missing key out.
unfoldable pub build_from : Value → Dict String → Exec Job (Unit {0})
unfolding follow_path split insert
build_from raw_event [] = pure tt
build_from raw_event ((k, v) ∷ export_) = do
  value ← lift (follow_path raw_event (split b'.' v))
  set_env k value
  build_from raw_event export_

abbrev raw_event_of : Option Value → Result Value
raw_event_of none = err attribute_error
raw_event_of (some v) = ok v

-- `raw_event` is the attribute of the job's event, if there is one; an empty export does not read it.
unfoldable pub build_event : Option Value → Dict String → Exec Job (Unit {0})
unfolding build_from
build_event raw_event [] = pure tt
build_event raw_event (e ∷ export_) = do
  event ← lift (raw_event_of raw_event)
  build_from event (e ∷ export_)

-- `Class.build` of the dummy environment, for what `setup` was given
unfoldable pub build_dummy : Dict Value → Exec Job (Unit {0})
unfolding update
build_dummy export_ = modify (λ j. record j { env = update j.env export_ })
