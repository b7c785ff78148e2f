-- ===== src/Legacy/Cr/Jobless.antt =====
-- A change request never has a job.
use rally_ci.Prelude.{
  String, ◌≡◌, Bool, true, false, Option, none, some, List, [], ◌∷◌, if◌then◌else◌,
}
use rally_ci.Prelude.Dict.{lookup}
use rally_ci.Python.Exec.{Exec}
use rally_ci.Python.Exec.Keeps.{Keeps, Keeps-bind, Keeps-bind-lift}
use rally_ci.Python.Value.{Value, index}
use rally_ci.Job.{or_else, or_key_error}
use rally_ci.Task.Create.{is_text}
use rally_ci.Legacy.Cr.{
  Cr, CrData, CrProject, prepare_job, prepare_each, prepare_jobs, on_comment, on_project, fill,
  found_in, comment_of, regexp_of, project_named,
}

abbrev Jobless : Cr → Type 0
Jobless c = c.jobs ≡ []

Keeps-if :
    (b : Bool) (m n : Exec Cr (Unit {0}))
    → Keeps Jobless m
    → Keeps Jobless n
    → Keeps Jobless (if b then m else n)
Keeps-if true m n km kn = km
Keeps-if false m n km kn = kn

prepare_job-Jobless : (config : CrData) (name : String) → Keeps Jobless (prepare_job config name)
unfolding prepare_job
prepare_job-Jobless config name =
    Keeps-bind-lift Jobless (or_key_error (lookup name config.jobs)) _ (λ _ c h. h)

prepare_each-Jobless :
    (config : CrData) (names : List String) → Keeps Jobless (prepare_each config names)
unfolding prepare_each
prepare_each-Jobless config [] = λ c h. h
prepare_each-Jobless config (name ∷ names) =
    Keeps-bind Jobless (prepare_job config name) _ (prepare_job-Jobless config name)
      (λ _. prepare_each-Jobless config names)

prepare_jobs-Jobless :
    (config : CrData) (project : CrProject) → Keeps Jobless (prepare_jobs config project)
unfolding prepare_jobs
prepare_jobs-Jobless config project =
    Keeps-bind Jobless (prepare_each config (or_else project.jobs [])) _
      (prepare_each-Jobless config (or_else project.jobs []))
      (λ _. prepare_each-Jobless config (or_else project.non_voting_jobs []))

module _ (search : String → String → Bool) (config : CrData) where
  on_comment-Jobless :
      (project : CrProject) (event : Value) → Keeps Jobless (on_comment search config project event)
  unfolding on_comment
  on_comment-Jobless project event =
      Keeps-bind-lift Jobless
        (comment_of search config (regexp_of search config config.regexp) event) _
        (λ comment.
          Keeps-bind-lift Jobless
            (found_in search config (regexp_of search config config.regexp) comment) _
            (λ found. Keeps-if found _ _ (prepare_jobs-Jobless config project) (λ c h. h)))

  on_project-Jobless :
      (event event_type : Value) (project : Option CrProject)
      → Keeps Jobless (on_project search config event event_type project)
  unfolding on_project
  on_project-Jobless event event_type none = λ c h. h
  on_project-Jobless event event_type (some project) =
      Keeps-if (is_text event_type "patchset-created") _ _ (prepare_jobs-Jobless config project) (
        Keeps-if (is_text event_type "comment-added") _ _ (on_comment-Jobless project event)
          (λ c h. h))

  -- Whatever the event is, no job is added: `Job` is not called in the way that it is declared.
  pub fill-Jobless : (event : Value) → Keeps Jobless (fill search config event)
  unfolding fill
  fill-Jobless event = Keeps-bind-lift Jobless (index event "type") _ (λ event_type.
      Keeps-if (is_text event_type "ref-updated") _ _ (λ c h. h)
        (Keeps-bind-lift Jobless (index event "change") _ (λ change.
          Keeps-bind-lift Jobless (index change "project") _ (λ name.
            Keeps-bind-lift Jobless (project_named search config name) _ (λ project c h.
              on_project-Jobless event event_type project (record c { project = some project })
                h)))))
