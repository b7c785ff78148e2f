-- ===== src/Task/Create/Jobs.antt =====
-- Which jobs a task has.
use mathlib.Core.List.{map-append}
use mathlib.Core.Path.{ap₂}
use rally_ci.Prelude.{
  String, ◌≡◌, refl, ◌∙◌, ap, Bool, true, false, Option, none, some, List, [], ◌∷◌, ◌++◌, map,
  if◌then◌else◌, arith, All, All-append, Bool-cases, inl, inr,
}
use rally_ci.Prelude.Dict.{Dict, lookup, update}
use rally_ci.Python.{ok, ok-injective}
use rally_ci.Python.Exec.Inversion.{bind-eq-ok, follow-eq-ok}
use rally_ci.Python.Value.{Value, index}
use rally_ci.Config.Data.{Data, ProjectConfig, StreamConfig}
use rally_ci.Utils.{Runtime, get_rnd_name}
use rally_ci.Job.{Job, new_job, or_else, or_key_error}
use rally_ci.Task.Env.{get_env}
use rally_ci.Task.Create.{Task, is_text, prepare_job, prepare_jobs, create_jobs, new_task}

-- A job that has not run, of the configuration that its name has.
pub record IsFresh (config : Data) (task_id : String) (env : Dict Value) (job : Job) : Type 0 where
  pub configured : lookup job.name config.job ≡ some job.config
  pub owner : job.task_id ≡ task_id
  pub environment : job.env ≡ update (or_else job.config.env []) env
  pub undecided : job.error ≡ some 254
  pub initial : job.status ≡ "__init__"
  pub not_started : job.started_at ≡ none

abbrev pub name_and_vote : Job → String × Bool
name_and_vote job = (job.name, job.voting)

abbrev pub with_vote : Bool → List String → List (String × Bool)
with_vote voting [] = []
with_vote voting (name ∷ names) = (name, voting) ∷ with_vote voting names

-- The jobs that the project's config lists for the event, with their votes.
abbrev pub planned_jobs : ProjectConfig → Value → List (String × Bool)
planned_jobs cfg event_type =
    if is_text event_type "ref-updated"
    then with_vote true (or_else cfg.on_ref_updated [])
    else with_vote true (or_else cfg.jobs []) ++ with_vote false (or_else cfg.non_voting_jobs [])

module _ (config : Data) (task_id : String) (env : Dict Value) where
  prepare_job-IsFresh :
      (voting : Bool) (name : String) (r : Runtime) (job : Job)
      → (prepare_job config task_id env voting name r).0 ≡ ok job
      → (name_and_vote job ≡ (name, voting)) × IsFresh config task_id env job
  unfolding prepare_job new_job
  prepare_job-IsFresh voting name r job h = ground arith

  abbrev Prepared : List Job → List (String × Bool) → Type 0
  Prepared jobs names = (map name_and_vote jobs ≡ names) × All (IsFresh config task_id env) jobs

  prepare_jobs-Prepared :
      (voting : Bool) (names : List String) (r : Runtime) (jobs : List Job)
      → (prepare_jobs config task_id env voting names r).0 ≡ ok jobs
      → Prepared jobs (with_vote voting names)
  unfolding prepare_jobs
  prepare_jobs-Prepared voting [] r jobs h = rw (← ok-injective h) (refl, tt)
  prepare_jobs-Prepared voting (name ∷ names) r jobs h =
      let (job, e₁, h₁) = bind-eq-ok (prepare_job config task_id env voting name) _ r h in
      let (others, e₂, h₂) = bind-eq-ok (prepare_jobs config task_id env voting names) _ _ h₁ in
      let (named, fresh) = prepare_job-IsFresh voting name r job e₁ in
      let (all_named, all_fresh) = prepare_jobs-Prepared voting names _ others e₂ in
      rw (← ok-injective h₂) (ap₂ (λ x l. x ∷ l) named all_named, (fresh, all_fresh))

  Prepared-append :
      (jobs others : List Job) (names more : List (String × Bool))
      → Prepared jobs names
      → Prepared others more
      → Prepared (jobs ++ others) (names ++ more)
  Prepared-append jobs others names more (n, f) (m, g) =
      (map-append name_and_vote jobs others ∙ ap₂ (λ a b. a ++ b) n m, All-append _ jobs others f g)

  create_jobs-Prepared :
      (cfg : ProjectConfig) (event_type : Value) (r : Runtime) (jobs : List Job)
      → (create_jobs config cfg task_id env event_type r).0 ≡ ok jobs
      → Prepared jobs (planned_jobs cfg event_type)
  unfolding create_jobs
  create_jobs-Prepared cfg event_type r jobs h =
      elim (Bool-cases (is_text event_type "ref-updated")) [
        | inl e ↦
            rw e (prepare_jobs-Prepared true (or_else cfg.on_ref_updated []) r jobs (rw e at h))
        | inr e ↦
            let (first, e₁, h₁) =
              bind-eq-ok (prepare_jobs config task_id env true _) _ r (rw e at h) in
            let (others, e₂, h₂) = bind-eq-ok (prepare_jobs config task_id env false _) _ _ h₁ in
            let joined : first ++ others ≡ jobs = ok-injective h₂ in
            rw (e, ← joined)
              (Prepared-append first others _ _ (prepare_jobs-Prepared true _ r first e₁)
                (prepare_jobs-Prepared false _ _ others e₂))
      ]

-- What a created task rests on.
pub record Created (config : Data) (stream : StreamConfig) (project : String) (event : Value)
    (t : Task) : Type 0 where
  pub cfg : ProjectConfig
  pub env : Dict Value
  pub event_type : Value
  pub configured : lookup project config.project ≡ some cfg
  pub environment : get_env stream.env event ≡ ok env
  pub typed : index event "type" ≡ ok event_type
  pub about : (t.event ≡ event) × (t.project ≡ project)
  pub jobs : map name_and_vote t.jobs_list ≡ planned_jobs cfg event_type
  pub fresh : All (IsFresh config t.id env) t.jobs_list

or_key_error-eq-ok : {A : Type 0} (o : Option A) {a : A} → or_key_error o ≡ ok a → o ≡ some a
or_key_error-eq-ok none e = cc
or_key_error-eq-ok (some b) e = ap some (ok-injective e)

-- A task that can be created has exactly the jobs that its project lists for the type of the event,
-- in that order: for a ref update those of `on-ref-updated`, all voting, else those of `jobs`, voting,
-- and then those of `non-voting-jobs`, not voting. Each has its own configuration, an environment that
-- the event's variables were added to, and has not run: its error is 254 and its status `__init__`.
pub new_task-Created :
    (config : Data) (stream : StreamConfig) (project : String) (event : Value) (r : Runtime)
    (t : Task)
    → (new_task config stream project event r).0 ≡ ok t
    → Created config stream project event t
unfolding new_task
new_task-Created config stream project event r t h =
    let (id, e₀, h₀) = bind-eq-ok (get_rnd_name "EVNT" 10) _ r h in
    let (cfg, e₁, h₁) = follow-eq-ok (or_key_error (lookup project config.project)) _ _ h₀ in
    let (env, e₂, h₂) = follow-eq-ok (get_env stream.env event) _ _ h₁ in
    let (event_type, e₃, h₃) = follow-eq-ok (index event "type") _ _ h₂ in
    let (jobs, e₄, h₄) = bind-eq-ok (create_jobs config cfg id env event_type) _ _ h₃ in
    let (named, fresh) = create_jobs-Prepared config id env cfg event_type _ jobs e₄ in
    rw (← ok-injective h₄) (record {
      cfg = cfg;
      env = env;
      event_type = event_type;
      configured = or_key_error-eq-ok (lookup project config.project) e₁;
      environment = e₂;
      typed = e₃;
      about = (refl, refl);
      jobs = named;
      fresh = fresh;
    })
