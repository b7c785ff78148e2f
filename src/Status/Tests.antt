-- ===== src/Status/Tests.antt =====
-- Two connections, of which the first is lost, and a task that ends.
use rally_ci.Prelude.{
  ℕ, ◌≡◌, refl, true, false, Option, none, some, List, [], ◌∷◌, map, eqb, if◌then◌else◌,
}
use rally_ci.Python.{plain_error, Result, ok, err}
use rally_ci.Python.Exec.{Exec, pure}
use rally_ci.Python.Value.{Value, str, num, arr, nil, obj, field, end}
use rally_ci.Config.Data.{Data, JobConfig, RunnerConfig, RunnerLocal}
use rally_ci.Job.{Run, run}
use rally_ci.Task.Create.{Task}
use rally_ci.Task.View as TaskView
use rally_ci.Task.View.{escape, cut, last_part, job_dicts}
use rally_ci.Root.{has, call_each}
use rally_ci.Periodic.{find, drop}
use rally_ci.Status.{Status, new_status, append_ten, remove, items, send_all, job_status_cb}
use rally_ci.Status.Sent.{send_all_lem}
use rally_ci.Status.Recent.{last_ten, ended, finished_lem}
use rally_ci.Status.Steps.{Event, opens, receives, task_starts, task_ends, close, raises, steps}
use rally_ci.Status.Stranded.{abandoned-stays}
use rally_ci.Status.Dead.{IsRaised, run-IsRaised}
use rally_ci.Status.Life.{Handlers, Page, cleanup}
use rally_ci.Status.Life as Life
use rally_ci.Status.Life.Restored.{registers, unregisters, Change, changes, cleanup-handlers}

abbrev task : Task
task = record {
  id = "_rci_EVNTa";
  project = "sandbox";
  event = obj (field "patchSet" (obj (field "ref" (str "refs/changes/34/1234/5") end)) end);
  jobs_list = [];
  finished_at = 8;
}

abbrev shown : Value
shown = obj (
    field "id" (str "_rci_EVNTa") (
      field "jobs" (arr nil) (
        field "finished_at" (num 8) (
          field "subject" (str "[view on github]") (
            field "project" (str "sandbox")
              (field "url" (str "https://review.openstack.org/#/c/1234/5") end))))))

to_dict-task : TaskView.to_dict 9 task ≡ ok shown
unfolding TaskView.to_dict escape cut last_part job_dicts
to_dict-task = refl

-- Nothing can be sent to the connection 0 after the first message.
abbrev deliver : ℕ → ℕ → Value → Result (Unit {0})
deliver k c v = if eqb k 0 then ok tt else if eqb c 0 then err plain_error else ok tt

abbrev events : List Event
events = opens 1 [] ∷ opens 2 [] ∷ task_starts 3 task ∷ task_ends 9 task ∷ receives 1 close ∷ []

-- The second connection is sent the first message only: the first one raises before its turn.
last_state :
    ((steps deliver new_status events).clients ≡ 0 ∷ [])
    × ((steps deliver new_status events).finished ≡ shown ∷ [])
    × (map (λ m. m.0) (steps deliver new_status events).received ≡ 0 ∷ 1 ∷ [])
unfolding steps append_ten remove items find drop TaskView.to_dict escape cut last_part job_dicts
    has
last_state = (refl, refl, refl)

finished_lem_example : (steps deliver new_status events).finished ≡ last_ten (ended events)
finished_lem_example = finished_lem deliver events

abandoned-stays_example :
    let s =
      steps deliver new_status (
        opens 1 []
        ∷ receives 0 (raises plain_error)
        ∷ task_starts 3 task
        ∷ receives 0 close
        ∷ []) in
    (has 0 s.clients ≡ true) × (has 0 s.serving ≡ false)
unfolding steps has
abandoned-stays_example =
    abandoned-stays deliver (opens 1 [] ∷ []) (task_starts 3 task ∷ receives 0 close ∷ []) 0
      plain_error (λ e. cc) refl

abbrev only_five : ℕ → ℕ → Value → Result (Unit {0})
only_five k c v = if eqb c 5 then ok tt else err plain_error

abbrev page_status : Status
page_status = record new_status { clients = 5 ∷ 6 ∷ 7 ∷ []; serving = 5 ∷ 7 ∷ []; made = 8 }

send_all_lem_example :
    ((send_all only_five shown page_status).0 ≡ err plain_error)
    × ((send_all only_five shown page_status).1.received ≡ (5, shown) ∷ [])
send_all_lem_example =
    (send_all_lem only_five shown page_status).1 (5 ∷ []) (7 ∷ []) 6 plain_error refl
      ((λ k. refl), tt) (λ k. refl)

abbrev job_config : JobConfig
job_config = record { name = "test"; timeout = none; env = none; runner = none }

abbrev config : Data
config = record { job = []; project = []; runner = []; script = [] }

abbrev start : Run
start = record {
  job = record {
    id = "_rci_JOBa";
    name = "test";
    task_id = "_rci_EVNTa";
    config = job_config;
    voting = true;
    error = some 254;
    status = "__init__";
    timeout = 5400;
    env = [];
    log_path = "_rci_EVNTa/test";
    queued_at = 7;
    started_at = none;
    finished_at = 0;
    has_runner = false;
  };
  sent = [];
  scripts = [];
}

abbrev build : RunnerConfig → RunnerLocal → Result (Exec Run (Option ℕ))
build cfg local = ok (pure none)

run-IsRaised_example :
    let after =
      run
        (call_each
          ((λ j. ok tt) ∷ (λ j. (job_status_cb (λ k c v. err plain_error) 9 j page_status).0) ∷ []))
        config
        build
        8
        9
        start in
    IsRaised after.0
    × (after.1.scripts ≡ [])
    × (after.1.job ≡ record start.job { status = "queued" })
unfolding has
run-IsRaised_example =
    run-IsRaised (λ k c v. err plain_error) page_status 7 plain_error refl (λ k v. refl)
      ((λ j. ok tt) ∷ []) [] 9 config build 8 9 start

abbrev page : Page
page = record {
  id = 3;
  handlers = record {
    task_start_handlers = 1 ∷ [];
    task_end_handlers = 1 ∷ [];
    job_update_handlers = 1 ∷ [];
  };
  status = new_status;
  listening = false;
}

-- Another service ends and a third one begins meanwhile.
abbrev others : List Change
others = unregisters 1 ∷ registers 2 ∷ []

cleanup-handlers_example :
    let begun = (Life.run (ok tt) page).1 in
    (cleanup
      (λ c. err plain_error)
      (record begun { handlers = changes begun.handlers others; status = page_status })).1.handlers
    ≡ changes page.handlers others
unfolding has
cleanup-handlers_example =
    cleanup-handlers (ok tt) (λ c. err plain_error) page page_status others
      (record { starts = refl; ends = refl; updates = refl }) ((λ e. cc), ((λ e. cc), tt))
