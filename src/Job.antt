-- ===== src/Job.antt =====
-- rallyci/job.py. `Run` is a job together with what its run does: the status updates that it sends to
-- `root.job_updated`, and the scripts that its runner starts.
pub mod Verdict
pub mod View
mod Tests
use rally_ci.Prelude.{
  ℕ, zero, suc, ◌+◌, ◌*◌, String, Bool, true, false, Option, none, some, List, [], ◌∷◌, ◌++◌,
  if◌then◌else◌,
}
use rally_ci.Prelude.Dict.{Dict, lookup}
use rally_ci.Python.{Exception, key_error, timeout_error, cancelled_error, Result, ok, err}
use rally_ci.Python.Exec.{Exec, pure, raise, lift, gets, modify, ◌>>=◌, ◌>>◌}
use rally_ci.Python.Value.{Value}
use rally_ci.Python.Text.{path_join}
use rally_ci.Config.Data.{Data, JobConfig, RunnerLocal, RunnerConfig}
use rally_ci.Utils.{Runtime, get_rnd_name}

-- `error` is 254 at first, and then what the runner returns: `None` or a number.
pub record Job : Type 0 where
  pub id : String
  pub name : String
  pub task_id : String
  pub config : JobConfig
  pub voting : Bool
  pub error : Option ℕ
  pub status : String
  pub timeout : ℕ
  pub env : Dict Value
  pub log_path : String
  pub queued_at : ℕ
  pub started_at : Option ℕ
  pub finished_at : ℕ
  pub has_runner : Bool

abbrev pub or_else {ℓ} : {A : Type ℓ} → Option A → A → A
or_else none d = d
or_else (some a) d = a

abbrev pub or_key_error {ℓ} : {A : Type ℓ} → Option A → Result A
or_key_error none = err key_error
or_key_error (some a) = ok a

unfoldable pub new_job : Data → String → String → Exec Runtime Job
unfolding get_rnd_name
new_job config task_id name = do
  queued_at ← gets (λ r. r.clock)
  cfg ← lift (or_key_error (lookup name config.job))
  id ← get_rnd_name "JOB" 10
  pure (record {
    id = id;
    name = name;
    task_id = task_id;
    config = cfg;
    voting = true;
    error = some 254;
    status = "__init__";
    timeout = or_else cfg.timeout 90 * 60;
    env = or_else cfg.env [];
    log_path = path_join task_id name;
    queued_at = queued_at;
    started_at = none;
    finished_at = 0;
    has_runner = false;
  })

-- `if self.error:`
abbrev pub failed : Option ℕ → Bool
failed none = false
failed (some zero) = false
failed (some (suc _)) = true

pub record Run : Type 0 where
  pub job : Job
  pub sent : List Job
  pub scripts : List (String × String)

-- `notify` is what the update handlers of the root do with the job.
module _ (notify : Job → Result (Unit {0})) where
  unfoldable pub set_status : String → Exec Run (Unit {0})
  set_status status r =
      let job = record r.job { status = status } in
      (notify job, record r { job = job; sent = r.sent ++ job ∷ [] })

  -- The `except` clauses of `Job.run`.
  unfoldable pub on_exception : Exception → Exec Run (Unit {0})
  unfolding set_status
  on_exception timeout_error = set_status "TIMEOUT"
  on_exception cancelled_error = set_status "CANCELLED"
  on_exception _ = set_status "ERROR"

  abbrev handle : Result (Unit {0}) → Exec Run (Unit {0})
  handle (ok _) r = (ok tt, r)
  handle (err e) r = on_exception e r

  -- The body of the `try`: `waited` is the runner under `asyncio.wait_for`.
  abbrev attempt : Exec Run (Option ℕ) → Exec Run (Unit {0})
  attempt waited = do
    error ← waited
    modify (λ r. record r { job = record r.job { error = error } })
    set_status (if failed error then "FAILURE" else "SUCCESS")

  abbrev and_finish : ℕ → Result (Unit {0}) × Run → Result (Unit {0}) × Run
  and_finish now (result, r) = (result, record r { job = record r.job { finished_at = now } })

  -- `try`, `except` and `finally`
  unfoldable pub settle : Exec Run (Option ℕ) → ℕ → Exec Run (Unit {0})
  unfolding on_exception
  settle waited finished r =
      let (result, tried) = attempt waited r in and_finish finished (handle result tried)

  -- `build` is `config.get_instance`, which makes the runner; `started` and `finished` are the times
  -- that the clock shows.
  unfoldable pub run :
      Data
      → (RunnerConfig → RunnerLocal → Result (Exec Run (Option ℕ)))
      → ℕ
      → ℕ
      → Exec Run (Unit {0})
  unfolding settle
  run config build started finished = do
    set_status "queued"
    modify (λ r. record r { job = record r.job { started_at = some started } })
    runner_local_cfg ← (λ r. (or_key_error r.job.config.runner, r))
    runner_cfg ← lift (or_key_error (lookup runner_local_cfg.name config.runner))
    waited ← lift (build runner_cfg runner_local_cfg)
    modify (λ r. record r { job = record r.job { has_runner = true } })
    settle waited finished
