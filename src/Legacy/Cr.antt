-- ===== src/Legacy/Cr.antt =====
-- The class `CR` of rallyci/cr.py. `search` is whether `re.search` finds a pattern in a text.
pub mod Jobless
use rally_ci.Prelude.{
  ℕ, String, ◌==◌, ◌≡◌, refl, Bool, true, false, Option, none, some, List, [], ◌∷◌, if◌then◌else◌,
}
use rally_ci.Prelude.Dict.{Dict, lookup}
use rally_ci.Python.{attribute_error, type_error, Result, ok, err}
use rally_ci.Python.Exec.{Exec, pure, raise, lift, modify, ◌>>=◌, ◌>>◌}
use rally_ci.Python.Value.{Value, null, bool, num, str, arr, obj, nil, field, end, index, get}
use rally_ci.Utils.{Runtime, get_rnd_name}
use rally_ci.Job.{or_else, or_key_error}
use rally_ci.Task.Create.{is_text}
use rally_ci.Task.View.{escape, escaped}

-- The parts of `config.data` that this module reads
pub record CrProject : Type 0 where
  pub jobs : Option (List String)
  pub non_voting_jobs : Option (List String)
  pub silent : Bool

pub record CrData : Type 0 where
  pub projects : Dict CrProject
  pub jobs : Dict Value
  pub regexp : Option String
  pub has_publisher : Bool

-- `project` is missing, or what `get` found: `None`, or the config of a project. No job can be in `jobs`.
pub record Cr : Type 0 where
  pub id : String
  pub event : Value
  pub project : Option (Option CrProject)
  pub jobs : List String

-- `Job(self, job_name, cfg, self.event)`: the class takes an event and a name.
abbrev make_job : Result String
make_job = err type_error

unfoldable pub prepare_job : CrData → String → Exec Cr (Unit {0})
prepare_job config name = do
  lift (or_key_error (lookup name config.jobs))
  job ← lift make_job
  modify (λ c. record c { jobs = job ∷ c.jobs })

unfoldable pub prepare_each : CrData → List String → Exec Cr (Unit {0})
unfolding prepare_job
prepare_each config [] = pure tt
prepare_each config (name ∷ names) = do prepare_job config name; prepare_each config names

unfoldable pub prepare_jobs : CrData → CrProject → Exec Cr (Unit {0})
unfolding prepare_each
prepare_jobs config project = do
  prepare_each config (or_else project.jobs [])
  prepare_each config (or_else project.non_voting_jobs [])

module _ (search : String → String → Bool) (config : CrData) where
  abbrev found_in : Option String → Value → Result Bool
  found_in none comment = ok false
  found_in (some pattern) (str comment) =
      ok (if pattern == "" then false else search pattern comment)
  found_in (some pattern) _ = err type_error

  abbrev comment_of : Option String → Value → Result Value
  comment_of none event = ok null
  comment_of (some pattern) event = if pattern == "" then ok null else index event "comment"

  abbrev regexp_of : Option String → Option String
  regexp_of none = none
  regexp_of (some pattern) = if pattern == "" then none else some pattern

  unfoldable pub on_comment : CrProject → Value → Exec Cr (Unit {0})
  unfolding prepare_jobs
  on_comment project event = do
    comment ← lift (comment_of (regexp_of config.regexp) event)
    found ← lift (found_in (regexp_of config.regexp) comment)
    if found then prepare_jobs config project else pure tt

  unfoldable pub on_project : Value → Value → Option CrProject → Exec Cr (Unit {0})
  unfolding on_comment
  on_project event event_type none = pure tt
  on_project event event_type (some project) =
      if is_text event_type "patchset-created"
      then prepare_jobs config project
      else if is_text event_type "comment-added"
      then on_comment project event
      else pure tt

  abbrev project_named : Value → Result (Option CrProject)
  project_named (str name) = ok (lookup name config.projects)
  project_named (arr _) = err type_error
  project_named (obj _) = err type_error
  project_named _ = ok none

  unfoldable pub fill : Value → Exec Cr (Unit {0})
  unfolding on_project
  fill event = do
    event_type ← lift (index event "type")
    if is_text event_type "ref-updated" then pure tt else (do
      change ← lift (index event "change")
      name ← lift (index change "project")
      project ← lift (project_named name)
      modify (λ c. record c { project = some project })
      on_project event event_type project)

  abbrev built : Result (Unit {0}) × Cr → Result Cr
  built (ok _, c) = ok c
  built (err e, c) = err e

  -- `CR.__init__`
  unfoldable pub new_cr : Value → Exec Runtime Cr
  unfolding fill get_rnd_name
  new_cr event = do
    id ← get_rnd_name "CR" 10
    lift (built (fill event (record { id = id; event = event; project = none; jobs = [] })))

  -- `self.project.get("silent")` of no project, and `config.init_obj`, which there is not.
  abbrev publish : Option (Option CrProject) → Result (Unit {0})
  publish (some (some project)) =
      if project.silent then ok tt else if config.has_publisher then err attribute_error else ok tt
  publish _ = err attribute_error

  -- `CR.run` without jobs: there is nothing to gather.
  unfoldable pub run : Cr → Result (Unit {0})
  run c = publish c.project

-- The two texts, which are read before the first of them is escaped.
abbrev texts : Value → Result (Value × Value)
texts event = elim (get event "change" (obj end)) [
  | err e ↦ err e
  | ok change ↦ elim (get change "subject" (str "")) [
    | err e ↦ err e
    | ok subject ↦ elim (get change "project" (str "")) [
      | err e ↦ err e
      | ok project ↦ elim (escaped subject) [
        | err e ↦ err e
        | ok s ↦ elim (escaped project) [ err e ↦ err e | ok p ↦ ok (s, p) ]
      ]
    ]
  ]
]

-- `CR.to_dict` without jobs
unfoldable pub to_dict : Cr → Result Value
unfolding escape
to_dict c = elim (texts c.event) [
  | err e ↦ err e
  | ok (subject, project) ↦ ok (
      obj (
        field "id" (str c.id)
          (field "jobs" (arr nil) (field "subject" subject (field "project" project end)))))
]
