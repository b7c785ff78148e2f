-- ===== src/Runner/Tests.antt =====
-- A runner with two machines; the second script of the first machine may fail.
use rally_ci.Runner.Cleanup.{Cleaning, Guest, cleanup}
use rally_ci.Runner.Cleanup.Destroyed.{CanCopy, cleanup-destroyed}
use rally_ci.Ssh.Command.{Client, exited, scp_line}
use rally_ci.Ssh.Scp.{Reading, read_all, cancelled}
use rally_ci.Python.Text.{path_join}
use rally_ci.Prelude.{
  ◌↔◌, ◌==◌, any, if◌then◌else◌, All, false, ℕ, String, ◌≡◌, refl, true, Option, none, some, List,
  [], ◌∷◌,
}
use rally_ci.Prelude.Dict.{Dict, lookup}
use rally_ci.Runner.Success.{Succeeds, ssh_runner, run-Succeeds}
use rally_ci.Python.{Exception, ssh_error, Result, ok, err}
use rally_ci.Config.Data.{Data, RunnerConfig, RunnerLocal, VmLocal, Script}
use rally_ci.Job.{Job, Run, run, set_status}
use rally_ci.Runner.{Machines, run_scripts, play_all, play_vm, play_script}
use rally_ci.Runner.Outcome.{Stops, run_scripts-outcome}

abbrev script : Script
script = record { interpreter = "/bin/bash -xe -s"; body = "true"; user = some "rally" }

abbrev config : Data
config = record {
  job = [];
  project = [];
  runner = [];
  script = ("checkout", script) ∷ ("tests", script) ∷ [];
}

abbrev local_cfg : RunnerLocal
local_cfg = record {
  name = "main";
  vms =
      record { name = "dev"; scripts = some ("checkout" ∷ "tests" ∷ []); scp = none }
      ∷ record { name = "noop"; scripts = none; scp = none }
      ∷ [];
}

abbrev cfg : RunnerConfig
cfg = record { provider = "virsh"; logs = "/tmp/ci" }

abbrev job : Job
job = record {
  id = "_rci_JOBa";
  name = "test";
  task_id = "_rci_EVNTa";
  config = record { name = "test"; timeout = none; env = none; runner = some local_cfg };
  voting = true;
  error = some 254;
  status = "queued";
  timeout = 5400;
  env = [];
  log_path = "_rci_EVNTa/test";
  queued_at = 0;
  started_at = some 0;
  finished_at = 0;
  has_runner = true;
}

abbrev queued : Run
queued = record { job = job; sent = []; scripts = [] }

abbrev provider : List VmLocal → Result (List String)
provider vms = ok ("vm1" ∷ "vm2" ∷ [])

abbrev good : Machines
good before vm s env = ok tt

-- The second script that is started fails.
abbrev bad : Machines
bad [] vm s env = ok tt
bad (_ ∷ _) vm s env = err ssh_error

abbrev silent : Job → Result (Unit {0})
silent j = ok tt

abbrev played : Machines → Result (Option ℕ) × Run
played machines = run_scripts silent config machines (("virsh", provider) ∷ []) cfg local_cfg queued

bad_run :
    ((played bad).0 ≡ ok (some 1))
    × ((played bad).1.scripts ≡ ("vm1", "checkout") ∷ ("vm1", "tests") ∷ [])
unfolding run_scripts play_all play_vm play_script set_status lookup
bad_run = (refl, refl)

run_scripts-outcome_example :
    Stops config bad [] []
      (("vm1", "checkout") ∷ ("vm1", "tests") ∷ [])
      (("vm1", "checkout") ∷ ("vm1", "tests") ∷ [])
unfolding run_scripts play_all play_vm play_script set_status lookup
run_scripts-outcome_example =
    ((run_scripts-outcome silent (λ j. refl) config bad (("virsh", provider) ∷ []) cfg local_cfg
        queued provider ("vm1" ∷ "vm2" ∷ []) refl refl).2
      1 refl).1

-- Two machines with a log to copy; the copy from the second one fails with the exit code 1, or is
-- cancelled.
abbrev guest : String → Guest
guest name = record {
  name = name;
  local_cfg = record {
    name = "ubuntu";
    scripts = none;
    scp = some (("/var/log/syslog", "syslog") ∷ []);
  };
}

abbrev guests : List Guest
guests = guest "vm1" ∷ guest "vm2" ∷ []

abbrev get_ssh : String → Result Client
get_ssh vm = ok (record { username = "root"; hostname = vm; key = none; port = "22" })

abbrev no_file : List String → Reading
no_file line =
    if any (λ w. w == "root@vm2:/var/log/syslog") line
    then read_all (some (exited 1))
    else read_all (some (exited 0))

abbrev cleaning : Cleaning
cleaning = record { closed = false; copied = []; destroyed = [] }

abbrev cleaned : (List String → Reading) → Result (Unit {0}) × Cleaning
cleaned execute = cleanup get_ssh execute (λ vm. ok tt) "logs/job" guests cleaning

-- A copy that fails does not keep the machines.
cleaned-no_file : cleaned no_file ≡ (
  ok tt,
  record {
    closed = true;
    copied = ("vm1", "/var/log/syslog") ∷ ("vm2", "/var/log/syslog") ∷ [];
    destroyed = "vm1" ∷ "vm2" ∷ [];
  },
)
unfolding cleanup path_join scp_line
cleaned-no_file = refl

cleaned-cancelled : (cleaned (λ line. cancelled)).1.destroyed ≡ []
unfolding cleanup
cleaned-cancelled = refl

cleanup-destroyed_example :
    let after = cleaned no_file in
    (All (CanCopy get_ssh no_file (λ vm. ok tt) "logs/job") guests
      → (after.0 ≡ ok tt) × (after.1.destroyed ≡ "vm1" ∷ "vm2" ∷ []))
    × (¬ All (CanCopy get_ssh no_file (λ vm. ok tt) "logs/job") guests
        → ((e : Exception) × (after.0 ≡ err e)) × (after.1.destroyed ≡ []))
cleanup-destroyed_example =
    cleanup-destroyed get_ssh no_file (λ vm. ok tt) "logs/job" guests cleaning (λ vm. refl)

abbrev configured : Data
configured = record config { runner = ("main", cfg) ∷ [] }

abbrev providers : Dict (List VmLocal → Result (List String))
providers = ("virsh", provider) ∷ []

run-Succeeds_example :
    ((run silent configured
        (ssh_runner silent (λ j. refl) configured bad providers)
        10
        20
        queued).1.job.status
      ≡ "SUCCESS")
    ↔ Succeeds silent (λ j. refl) configured bad providers cfg local_cfg queued
unfolding lookup
run-Succeeds_example =
    run-Succeeds silent (λ j. refl) configured bad providers 10 20 queued local_cfg cfg refl refl
