-- ===== src/Stream/Tests.antt =====
-- A stream of two projects; the second one lists a job that is not configured.
use rally_ci.Prelude.{
  String, ◌≡◌, ◌≤◌, refl, Bool, true, false, none, some, List, [], ◌∷◌, ◌==◌, if◌then◌else◌, arith,
}
use rally_ci.Prelude.Dict.{lookup, insert, update, contains, add, discard}
use rally_ci.Python.{key_error, value_error, plain_error, Result, ok, err, ok-injective}
use rally_ci.Python.Value.{Value, str, obj, end, field}
use rally_ci.Python.Text.{split, path_join}
use rally_ci.Config.Data.{Data, StreamConfig}
use rally_ci.Job.{new_job}
use rally_ci.Task.Key.{get_key}
use rally_ci.Task.Env.{get_env, follow_path}
use rally_ci.Task.Create.{Task, new_task}
use rally_ci.Stream.{Stream, bytes, text, handle_event, handle_line, cleanup}
use rally_ci.Stream.Finish.{Starts, cleanup_lem, handle_event-Starts}
use rally_ci.Ssh.Command.{Process, exited}
use rally_ci.Stream.Service as Service
use rally_ci.Stream.Service.{SshConfig}
use rally_ci.Stream.Service.Broken.{run-lines}
use rally_ci.Stream.Handled.{IsRefUpdate}
use rally_ci.Stream.Steps.{Step, receives, finishes, run, step}
use rally_ci.Stream.Steps.Exclusive.{count_key, LineIsGerrit, run-Holds}
use rally_ci.Status.{Status, new_status, task_started_cb}
use rally_ci.Status.Dead.{handle_event-holds}
use rally_ci.Root.{has, call_each}
use rally_ci.Stream.Steps.Leak.{Fails, leaked_key-never_runs}

abbrev config : Data
config = record {
  job = ("tox", record { name = "tox"; timeout = none; env = none; runner = none }) ∷ [];
  project =
      ("good", record { jobs = some ("tox" ∷ []); non_voting_jobs = none; on_ref_updated = none })
      ∷ ("bad", record { jobs = some ("lost" ∷ []); non_voting_jobs = none; on_ref_updated = none })
      ∷ [];
  runner = [];
  script = [];
}

abbrev cfg : StreamConfig
cfg = record {
  env = some (("PROJECT", "change.project") ∷ ("OWNER", "change.owner.name") ∷ []);
  silent = false;
  vote = true;
  comment_header = some "Build {succeeded}";
  comment_job_template = some "- {name}";
  recheck_regexp = none;
}

abbrev change : String → Value
change project = obj (field "project" (str project) end)

abbrev patch_set : String → String → Value
patch_set project ref = obj (
    field "type" (str "patchset-created")
      (field "change" (change project) (field "patchSet" (obj (field "ref" (str ref) end)) end)))

abbrev ref_update : Value
ref_update = obj (field "type" (str "ref-updated") (field "refUpdate" (change "good") end))

abbrev search : String → String → Bool
search pattern comment = false

abbrev loads : String → Result Value
loads line =
    if line == "good"
    then ok (patch_set "good" "refs/1")
    else if line == "bad"
    then ok (patch_set "bad" "refs/2")
    else if line == "ref"
    then ok ref_update
    else err value_error

abbrev welcome : Task → Result (Unit {0})
welcome t = ok tt

abbrev empty : Stream
empty = record {
  tasks = [];
  runtime = record { clock = 5; draws = 0; sample = λ n length. "a"; byte = λ n. 7 };
  running = [];
  published = [];
  ended = [];
}

program : Unit {0}
unfolding run step handle_line cleanup new_task new_job get_env follow_path split path_join lookup
    insert update contains add discard get_key
program = tt

abbrev after : List Step → Stream
after steps = run config cfg search loads welcome empty steps

-- The same patch set twice, and a line that is no text in bytes.
once :
    (after (receives (bytes "good") ∷ receives (bytes "good") ∷ receives (text "good") ∷ [])).tasks
    ≡ "goodrefs/1" ∷ []
unfolding program
once = refl

keys : List Task → List String
keys [] = []
keys (t ∷ ts) = get_key t.event ∷ keys ts

running_once :
    keys (after (receives (bytes "good") ∷ receives (bytes "good") ∷ [])).running
    ≡ "goodrefs/1" ∷ []
unfolding program keys
running_once = refl

again :
    keys (after (receives (bytes "good") ∷ finishes 0 ∷ receives (bytes "good") ∷ [])).running
    ≡ "goodrefs/1" ∷ []
unfolding program keys
again = refl

-- The witnesses
no-IsRefUpdate : (project ref : String) → ¬ IsRefUpdate (patch_set project ref)
no-IsRefUpdate project ref (event_type, e, r) = cc (rw (← ok-injective e) at r)

good_line : LineIsGerrit loads (receives (bytes "good"))
good_line event e = rw (← ok-injective e) (λ ref. absurd (no-IsRefUpdate "good" "refs/1" ref))

run-Holds_example :
    count_key "goodrefs/1" (after (receives (bytes "good") ∷ receives (bytes "good") ∷ [])).running
    ≤ 1
unfolding program
run-Holds_example =
    run-Holds "goodrefs/1" (λ e. cc) config cfg search loads welcome
      (receives (bytes "good") ∷ receives (bytes "good") ∷ []) empty (good_line, (good_line, tt))
      (omega arith)

bad_event : Fails config cfg (patch_set "bad" "refs/2") empty
unfolding program
bad_event = record {
  project = "bad";
  found = refl;
  named = λ e. cc;
  project_cfg = record { jobs = some ("lost" ∷ []); non_voting_jobs = none; on_ref_updated = none };
  known = refl;
  typed = refl;
  error = key_error;
  raises = refl;
}

leaked_key-never_runs_example :
    count_key
      (get_key (patch_set "bad" "refs/2"))
      (run config cfg search loads welcome
        (handle_event config cfg search loads welcome (patch_set "bad" "refs/2") empty).1
        (receives (bytes "good") ∷ [])).running
    ≡ 0
unfolding program
leaked_key-never_runs_example =
    leaked_key-never_runs config cfg search loads welcome (patch_set "bad" "refs/2") empty
      (receives (bytes "good") ∷ []) (λ e. cc) bad_event refl refl (good_line, tt)

good_task : Task
unfolding program
good_task = elim (new_task config cfg "good" (patch_set "good" "refs/1") empty.runtime).0 [
  | ok t ↦ t
  | err e ↦ record { id = ""; project = ""; event = str ""; jobs_list = []; finished_at = 0 }
]

good_event : Starts config cfg welcome (patch_set "good" "refs/1") empty
unfolding program good_task
good_event = record {
  project = "good";
  found = refl;
  named = λ e. cc;
  project_cfg = record { jobs = some ("tox" ∷ []); non_voting_jobs = none; on_ref_updated = none };
  known = refl;
  typed = refl;
  task = good_task;
  made = refl;
  welcome = refl;
}

handle_event-Starts_example :
    (handle_event config cfg search loads welcome (patch_set "good" "refs/1") empty).1.running
    ≡ good_event.task ∷ []
unfolding program
handle_event-Starts_example =
    ((handle_event-Starts config cfg search loads welcome (patch_set "good" "refs/1") empty
        good_event).0
      refl).0

abbrev ref_task : Task
ref_task = record {
  id = "t";
  project = "good";
  event = ref_update;
  jobs_list = [];
  finished_at = 0;
}

-- Cleaning up a ref update, whose key is empty.
cleanup_lem_example : (cleanup cfg ref_task empty).0 ≡ err key_error
unfolding program
cleanup_lem_example = ((cleanup_lem cfg ref_task empty).1 refl).0

-- A client of the status page that cannot be sent anything any more
abbrev dead : Status
dead = record new_status { clients = 4 ∷ []; made = 5 }

handle_event-holds_example :
    let after =
      handle_event config cfg search loads
        (call_each ((λ t. (task_started_cb (λ k c v. err plain_error) 9 t dead).0) ∷ []))
        (patch_set "good" "refs/1")
        empty in
    (after.1.running ≡ []) × (contains (get_key (patch_set "good" "refs/1")) after.1.tasks ≡ true)
unfolding program has
handle_event-holds_example =
    handle_event-holds (λ k c v. err plain_error) dead 4 plain_error refl (λ k v. refl) [] [] 9
      config cfg search loads (patch_set "good" "refs/1") empty good_event refl

abbrev ssh : SshConfig
ssh = record { username = none; hostname = "review"; key = none; port = none }

abbrev printing : List String → Process
printing line = record { lines = "good" ∷ "{" ∷ "good" ∷ []; code = exited 0 }

abbrev decode : String → Result String
decode s = ok s

run-lines_example :
    Service.run config cfg search loads welcome decode printing ssh empty
    ≡ (err value_error, after (receives (bytes "good") ∷ []))
run-lines_example =
    (run-lines config cfg search loads welcome decode printing ssh empty).1 ("good" ∷ [])
      ("good" ∷ []) "{" value_error refl ((λ _. (patch_set "good" "refs/1", refl)), tt) (λ e. cc)
      refl
