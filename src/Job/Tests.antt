-- ===== src/Job/Tests.antt =====
-- Jobs whose runner returns, fails or is out of time.
use rally_ci.Prelude.{ℕ, ◌≡◌, ap, sym, refl, true, false, Option, none, some, [], ◌∷◌}
use rally_ci.Prelude.Dict.{lookup}
use rally_ci.Python.{timeout_error, Result, ok, ok-injective}
use rally_ci.Python.Exec.{Exec, pure, raise}
use rally_ci.Python.Text.{path_join}
use rally_ci.Config.Data.{Data, JobConfig, RunnerConfig, RunnerLocal}
use rally_ci.Utils.{Runtime}
use rally_ci.Job.{Job, Run, new_job, set_status, run}
use rally_ci.Job.Verdict.{IsConsistent, run-IsConsistent}

abbrev local_cfg : RunnerLocal
local_cfg = record { name = "main"; vms = [] }

abbrev job_config : JobConfig
job_config = record { name = "test"; timeout = some 30; env = none; runner = some local_cfg }

abbrev config : Data
config = record {
  job = ("test", job_config) ∷ [];
  project = [];
  runner = ("main", record { provider = "virsh"; logs = "/tmp/ci" }) ∷ [];
  script = [];
}

abbrev job : Job
job = record {
  id = "_rci_JOBa";
  name = "test";
  task_id = "_rci_EVNTa";
  config = job_config;
  voting = true;
  error = some 254;
  status = "__init__";
  timeout = 1800;
  env = [];
  log_path = "_rci_EVNTa/test";
  queued_at = 7;
  started_at = none;
  finished_at = 0;
  has_runner = false;
}

abbrev runtime : Runtime
runtime = record { clock = 7; draws = 0; sample = λ n length. "a"; byte = λ n. 7 }

new_job-test : (new_job config "_rci_EVNTa" "test" runtime).0 ≡ ok job
unfolding new_job lookup path_join
new_job-test = refl

abbrev fresh : Run
fresh = record { job = job; sent = []; scripts = [] }

abbrev silent : Job → Result (Unit {0})
silent j = ok tt

abbrev builds : Exec Run (Option ℕ) → RunnerConfig → RunnerLocal → Result (Exec Run (Option ℕ))
builds waited cfg local = ok waited

abbrev after : Exec Run (Option ℕ) → Job
after waited = (run silent config (builds waited) 10 20 fresh).1.job

statuses :
    ((after (pure none)).status ≡ "SUCCESS")
    × ((after (pure (some 1))).status ≡ "FAILURE")
    × ((after (raise timeout_error)).status ≡ "TIMEOUT")
unfolding run set_status lookup
statuses = (refl, refl, refl)

-- The runner that is built leaves the job as it is.
out_of_time_keeps :
    (cfg : RunnerConfig) (local : RunnerLocal) (waited : Exec Run (Option ℕ)) (s : Run)
    → builds (raise timeout_error) cfg local ≡ ok waited
    → (waited s).1.job.error ≡ s.job.error
out_of_time_keeps cfg local waited s e = ap (λ w. (w s).1.job.error) (sym (ok-injective e))

run-IsConsistent_example : IsConsistent (after (raise timeout_error))
run-IsConsistent_example =
    run-IsConsistent silent (λ j. refl) config (builds (raise timeout_error)) 10 20 fresh refl
      out_of_time_keeps
