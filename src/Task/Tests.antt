-- ===== src/Task/Tests.antt =====
-- A task of a project with voting and other jobs, and the environment of its event.
use rally_ci.Prelude.{All, List, Bool, String, ◌≡◌, refl, true, false, none, some, [], ◌∷◌}
use rally_ci.Prelude.Dict.{Dict, lookup, insert, update}
use rally_ci.Python.{type_error, Result, ok, err}
use rally_ci.Python.Value.{Value, str, num, arr, nil, obj, end, field}
use rally_ci.Python.Text.{split, path_join}
use rally_ci.Config.Data.{Data, JobConfig, StreamConfig}
use rally_ci.Utils.{Runtime}
use rally_ci.Job.{Job, new_job}
use rally_ci.Task.Env.{get_env, follow_path}
use rally_ci.Task.Create.{Task, new_task}
use rally_ci.Task.Publish.{publish_results}
use rally_ci.Task.Publish.Vote.{Passed, first_word, publish_results-vote}
use rally_ci.Task.View.{escape, cut, to_dict, last_part, job_dicts}
use rally_ci.Task.View.Escape.{HasPlain, to_dict-HasPlain}
use rally_ci.Task.Create.Jobs.{Created, new_task-Created}

abbrev event : Value
event = obj (
    field "type" (str "patchset-created")
      (field "change" (obj (field "project" (str "sandbox") end)) end))

abbrev env : Dict String
env = ("PROJECT", "change.project") ∷ ("OWNER", "change.owner.name") ∷ []

-- A path into a text is not a missing key.
get_env_error : get_env (some (("NAME", "type.name") ∷ [])) event ≡ err type_error
unfolding get_env follow_path split
get_env_error = refl

abbrev job_config : String → JobConfig
job_config name = record { name = name; timeout = none; env = none; runner = none }

abbrev config : Data
config = record {
  job = ("tox", job_config "tox") ∷ ("dsvm", job_config "dsvm") ∷ [];
  project =
      (
        "sandbox",
        record {
          jobs = some ("tox" ∷ []);
          non_voting_jobs = some ("dsvm" ∷ []);
          on_ref_updated = none;
        },
      )
      ∷ [];
  runner = [];
  script = [];
}

abbrev stream : StreamConfig
stream = record {
  env = some env;
  silent = true;
  vote = false;
  comment_header = none;
  comment_job_template = none;
  recheck_regexp = none;
}

abbrev runtime : Runtime
runtime = record { clock = 3; draws = 0; sample = λ n length. "a"; byte = λ n. 7 }

abbrev job : String → Bool → Job
job name voting = record {
  id = "_rci_JOBa";
  name = name;
  task_id = "_rci_EVNTa";
  config = job_config name;
  voting = voting;
  error = some 254;
  status = "__init__";
  timeout = 5400;
  env = ("PROJECT", str "sandbox") ∷ [];
  log_path = path_join "_rci_EVNTa" name;
  queued_at = 3;
  started_at = none;
  finished_at = 0;
  has_runner = false;
}

abbrev task : Task
task = record {
  id = "_rci_EVNTa";
  project = "sandbox";
  event = event;
  jobs_list = job "tox" true ∷ job "dsvm" false ∷ [];
  finished_at = 0;
}

new_task-task : (new_task config stream "sandbox" event runtime).0 ≡ ok task
unfolding new_task new_job get_env follow_path split lookup insert update
new_task-task = refl

new_task-Created_example : Created config stream "sandbox" event task
new_task-Created_example = new_task-Created config stream "sandbox" event runtime task new_task-task

-- The voting job has passed, and the other one has not.
abbrev done : Task
done = record task {
  event = obj (field "patchSet" (obj (field "revision" (str "1a8c") end)) end);
  jobs_list =
      record (job "tox" true) {
        error = none;
        status = "SUCCESS";
        started_at = some 10;
        finished_at = 75;
      }
      ∷ record (job "dsvm" false) {
        error = some 1;
        status = "FAILURE";
        started_at = some 10;
        finished_at = 3675;
      }
      ∷ [];
}

abbrev voting_stream : StreamConfig
voting_stream = record stream {
  vote = true;
  comment_header = some "Done.";
  comment_job_template = some "A job.";
}

abbrev plain : String → List (String × String) → Result String
plain template fields = ok template

abbrev words : List String
words = "gerrit" ∷ "review" ∷ "--verified=+1" ∷ "-m" ∷ "'Done.A job.\nA job.\n'" ∷ "1a8c" ∷ []

publish_results-done : publish_results plain voting_stream done ≡ ok (some words)
unfolding publish_results
publish_results-done = refl

publish_results-vote_example :
    (All Passed done.jobs_list → first_word words ≡ some "--verified=+1")
    × (¬ All Passed done.jobs_list → first_word words ≡ some "--verified=-1")
publish_results-vote_example =
    publish_results-vote plain voting_stream done words refl publish_results-done

-- A task as the status page shows it.
abbrev marked : Task
marked = record task {
  event = obj (
      field "change" (obj (field "subject" (str "Fix <b> & co") end))
        (field "patchSet" (obj (field "ref" (str "refs/changes/34/1234/5") end)) end));
  jobs_list = [];
}

abbrev shown_task : Value
shown_task = obj (
    field "id" (str "_rci_EVNTa") (
      field "jobs" (arr nil) (
        field "finished_at" (num 0) (
          field "subject" (str "Fix &lt;b&gt; &amp; co") (
            field "project" (str "sandbox")
              (field "url" (str "https://review.openstack.org/#/c/1234/5") end))))))

to_dict-marked : to_dict 9 marked ≡ ok shown_task
unfolding to_dict escape cut last_part job_dicts
to_dict-marked = refl

to_dict-HasPlain_example : HasPlain "subject" shown_task × HasPlain "project" shown_task
to_dict-HasPlain_example = to_dict-HasPlain 9 marked shown_task to_dict-marked
