-- ===== src/Runner.antt =====
-- rallyci/runners/ssh.py: the runner that plays a job's scripts on the machines of a provider.
pub mod Plan
pub mod Outcome
pub mod Cleanup
pub mod Success
mod Tests
use rally_ci.Prelude.{ℕ, String, Bool, true, false, Option, none, some, List, [], ◌∷◌, ◌++◌, map}
use rally_ci.Prelude.Dict.{Dict, lookup}
use rally_ci.Python.{Exception, ssh_error, Result, ok, err}
use rally_ci.Python.Exec.{Exec, pure, lift, ◌>>=◌, ◌>>◌}
use rally_ci.Python.Value.{Value}
use rally_ci.Python.Text.{path_join}
use rally_ci.Config.Data.{Data, RunnerConfig, RunnerLocal, VmLocal, Script}
use rally_ci.Job.{Job, Run, set_status, or_else, or_key_error}

-- `self.log_path`, and the file that the console is written to
unfoldable pub log_path_of : RunnerConfig → Job → String
unfolding path_join
log_path_of cfg job = path_join cfg.logs job.log_path

unfoldable pub console_of : RunnerConfig → Job → String
unfolding log_path_of
console_of cfg job = path_join (log_path_of cfg job) "console.txt"

abbrev pub zip {ℓ κ} : {A : Type ℓ} {B : Type κ} → List A → List B → List (A × B)
zip [] ys = []
zip (x ∷ xs) [] = []
zip (x ∷ xs) (y ∷ ys) = (x, y) ∷ zip xs ys

-- What runs a script: it is given the scripts that were started before, the machine, the script and
-- the environment.
abbrev pub Machines : Type 0
Machines = List (String × String) → String → Script → Dict Value → Result (Unit {0})

-- `except asyncssh.SSHError: return 1`; without an exception the loop goes on.
abbrev pub caught : Result (Unit {0}) → Result (Option ℕ)
caught (ok _) = ok none
caught (err ssh_error) = ok (some 1)
caught (err e) = err e

-- The machines are written by name. `some` is the value of a `return` in the loops.
module _ (notify : Job → Result (Unit {0})) (config : Data) (run_script : Machines) where
  abbrev start : String → String → Script → Exec Run (Option ℕ)
  start vm name script r = (
    caught (run_script r.scripts vm script r.job.env),
    record r { scripts = r.scripts ++ (vm, name) ∷ [] },
  )

  unfoldable pub play_script : String → String → Exec Run (Option ℕ)
  unfolding set_status
  play_script vm name = do
    script ← lift (or_key_error (lookup name config.script))
    set_status notify name
    start vm name script

  unfoldable pub play_vm : String → List String → Exec Run (Option ℕ)
  play_vm vm [] = pure none
  play_vm vm (name ∷ names) = do
    returned ← play_script vm name
    elim returned [ some n ↦ pure (some n) | none ↦ play_vm vm names ]

  unfoldable pub play_all : List (String × List String) → Exec Run (Option ℕ)
  play_all [] = pure none
  play_all ((vm, names) ∷ rest) = do
    returned ← play_vm vm names
    elim returned [ some n ↦ pure (some n) | none ↦ play_all rest ]

  -- `self.prov.get_vms` is the provider's entry in `providers`.
  unfoldable pub run_scripts :
      Dict (List VmLocal → Result (List String)) → RunnerConfig → RunnerLocal → Exec Run (Option ℕ)
  unfolding play_all
  run_scripts providers cfg local_cfg = do
    get_vms ← lift (or_key_error (lookup cfg.provider providers))
    vms ← lift (get_vms local_cfg.vms)
    play_all (zip vms (map (λ vm. or_else vm.scripts []) local_cfg.vms))
