-- ===== src/Task/Create.antt =====
-- `Task.__init__`: a task and its jobs, from an event of a project.
pub mod Jobs
use rally_ci.Prelude.{
  ℕ, String, Bool, true, false, Option, List, [], ◌∷◌, ◌++◌, ◌==◌, if◌then◌else◌,
}
use rally_ci.Prelude.Dict.{Dict, lookup, update}
use rally_ci.Python.{Result}
use rally_ci.Python.Exec.{Exec, pure, lift, ◌>>=◌}
use rally_ci.Python.Value.{Value, null, bool, num, str, arr, obj, index}
use rally_ci.Config.Data.{Data, ProjectConfig, StreamConfig}
use rally_ci.Utils.{Runtime, get_rnd_name}
use rally_ci.Job.{Job, new_job, or_else, or_key_error}
use rally_ci.Task.Env.{get_env}

pub record Task : Type 0 where
  pub id : String
  pub project : String
  pub event : Value
  pub jobs_list : List Job
  pub finished_at : ℕ

-- `v == s` for a text `s`
abbrev pub is_text : Value → String → Bool
is_text (str t) s = t == s
is_text _ s = false

-- The body of a loop over job names: `Job(self, job_name)`, `job.env.update(env)`, and `voting`.
unfoldable pub prepare_job : Data → String → Dict Value → Bool → String → Exec Runtime Job
prepare_job config task_id env voting name = do
  job ← new_job config task_id name
  pure (record job { env = update job.env env; voting = voting })

unfoldable pub prepare_jobs :
    Data → String → Dict Value → Bool → List String → Exec Runtime (List Job)
unfolding prepare_job
prepare_jobs config task_id env voting [] = pure []
prepare_jobs config task_id env voting (name ∷ names) = do
  job ← prepare_job config task_id env voting name
  jobs ← prepare_jobs config task_id env voting names
  pure (job ∷ jobs)

unfoldable pub create_jobs :
    Data → ProjectConfig → String → Dict Value → Value → Exec Runtime (List Job)
unfolding prepare_jobs
create_jobs config cfg task_id env event_type =
    if is_text event_type "ref-updated"
    then prepare_jobs config task_id env true (or_else cfg.on_ref_updated [])
    else (do
      jobs ← prepare_jobs config task_id env true (or_else cfg.jobs [])
      others ← prepare_jobs config task_id env false (or_else cfg.non_voting_jobs [])
      pure (jobs ++ others))

unfoldable pub new_task : Data → StreamConfig → String → Value → Exec Runtime Task
unfolding create_jobs
new_task config stream project event = do
  id ← get_rnd_name "EVNT" 10
  cfg ← lift (or_key_error (lookup project config.project))
  env ← lift (get_env stream.env event)
  event_type ← lift (index event "type")
  jobs_list ← create_jobs config cfg id env event_type
  pure
      (record { id = id; project = project; event = event; jobs_list = jobs_list; finished_at = 0 })
