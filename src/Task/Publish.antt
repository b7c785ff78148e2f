-- ===== src/Task/Publish.antt =====
-- `Task.publish_results`: the `gerrit review` command that reports a task. `some` is a command to be
-- run over ssh, and `none` is a stream without a comment header.
-- `format template fields` is `template.format(**fields)`, which may raise.
pub mod Vote
use rally_ci.Prelude.{
  ℕ, ◌-◌, String, ◌<>◌, ◌==◌, Bool, true, false, ◌&&◌, Option, none, some, List, [], ◌∷◌, ◌++◌, any,
  if◌then◌else◌,
}
use rally_ci.Python.{attribute_error, type_error, Result, ok, err, ◌>>=◌}
use rally_ci.Python.Value.{Value, null, bool, num, str, arr, obj, index}
use rally_ci.Python.Text.{concat}
use rally_ci.Config.Data.{StreamConfig}
use rally_ci.Job.{Job, failed, or_key_error}
use rally_ci.Task.HumanTime.{human_time}
use rally_ci.Task.Create.{Task}

-- `j.error for j in self.jobs_list if j.voting`, as a test on a job.
abbrev pub counts_against : Job → Bool
counts_against j = j.voting && failed j.error

-- `fail`
unfoldable pub is_failure : List Job → Bool
is_failure jobs = any counts_against jobs

-- `if not comment_header`
abbrev pub header_of : Option String → Option String
header_of none = none
header_of (some h) = if h == "" then none else some h

-- A job that never ran has no `started_at`.
abbrev started : Option ℕ → Result ℕ
started none = err attribute_error
started (some t) = ok t

-- A list takes any value; the command line takes texts.
abbrev pub as_text : Value → Result String
as_text (str s) = ok s
as_text _ = err type_error

module _ (format : String → List (String × String) → Result String) where
  -- A job that has not finished has a negative time, for which `human_time` prints the same as for 0.
  unfoldable pub job_text : String → Job → Result String
  unfolding human_time
  job_text tpl job = do
    start ← started job.started_at
    line ← format tpl (
        ("success", job.status <> (if job.voting then "" else " (non-voting)"))
        ∷ ("name", job.config.name)
        ∷ ("time", human_time (job.finished_at - start))
        ∷ ("log_path", job.log_path)
        ∷ [])
    ok (line <> "\n")

  unfoldable pub job_texts : String → List Job → Result String
  unfolding job_text
  job_texts tpl [] = ok ""
  job_texts tpl (job ∷ jobs) = do
    line ← job_text tpl job
    rest ← job_texts tpl jobs
    ok (line <> rest)

  unfoldable pub vote_words : Bool → Bool → List String
  vote_words vote fail =
      if vote then (if fail then "--verified=-1" else "--verified=+1") ∷ [] else []

  -- From the header on.
  unfoldable pub review : StreamConfig → String → Task → Result (List String)
  unfolding is_failure job_texts vote_words concat
  review cfg header task = do
    let fail = is_failure task.jobs_list
    summary ← format header (("succeeded", if fail then "failed" else "succeeded") ∷ [])
    tpl ← or_key_error cfg.comment_job_template
    jobs ← job_texts tpl task.jobs_list
    patch_set ← index task.event "patchSet"
    raw_revision ← index patch_set "revision"
    revision ← as_text raw_revision
    ok (
        "gerrit"
        ∷ "review"
        ∷ (vote_words cfg.vote fail
            ++ "-m" ∷ concat ("'" ∷ summary ∷ jobs ∷ "'" ∷ []) ∷ revision ∷ []))

  abbrev pub review_with : StreamConfig → Task → Option String → Result (Option (List String))
  review_with cfg task none = ok none
  review_with cfg task (some header) = do words ← review cfg header task; ok (some words)

  unfoldable pub publish_results : StreamConfig → Task → Result (Option (List String))
  unfolding review
  publish_results cfg task = review_with cfg task (header_of cfg.comment_header)
