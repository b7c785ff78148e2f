-- ===== src/Stream.antt =====
-- rallyci/services/gerrit.py, with `start_task` of rallyci/root.py and `Task.cleanup` of
-- rallyci/task.py, which share the set of keys `tasks` of the stream.
pub mod Handled
pub mod Finish
mod Tests
pub mod Steps
pub mod Service
use rally_ci.Prelude.{
  ℕ, String, Bool, true, false, Option, none, some, List, [], ◌∷◌, ◌++◌, ◌==◌, if◌then◌else◌,
}
use rally_ci.Prelude.Dict.{Dict, lookup, contains, add, discard}
use rally_ci.Python.{Exception, key_error, type_error, Result, ok, err}
use rally_ci.Python.Exec.{Exec, pure, raise, lift, gets, modify, ◌>>=◌, ◌>>◌}
use rally_ci.Python.Value.{Value, null, bool, num, str, arr, obj, end, get, index, truthy}
use rally_ci.Config.Data.{Data, StreamConfig}
use rally_ci.Utils.{Runtime}
use rally_ci.Job.{or_else}
use rally_ci.Task.Key.{get_key}
use rally_ci.Task.Create.{Task, is_text, new_task}

-- `tasks` is the set of keys. `running` are the tasks that were started and not cleaned up,
-- `published` those whose results were to be published, `ended` those that the end handlers saw.
pub record Stream : Type 0 where
  pub tasks : List String
  pub runtime : Runtime
  pub running : List Task
  pub published : List Task
  pub ended : List Task

-- What a stream hands to `_handle_line`.
pub data Line : Type 0 where
  bytes : String → Line
  text : String → Line

abbrev pub on_runtime : {A : Type 0} → Exec Runtime A → Exec Stream A
on_runtime m s = let (result, runtime) = m s.runtime in (result, record s { runtime = runtime })

-- `.get("change", {}).get("project")`, and so for "refUpdate"
abbrev project_in : String → Value → Result Value
project_in part event = elim (get event part (obj end)) [
  | ok inner ↦ get inner "project" null
  | err e ↦ err e
]

-- The first of the two that is true.
unfoldable pub project_of : Value → Result Value
project_of event = elim (project_in "change" event) [
  | ok project ↦ if truthy project then ok project else project_in "refUpdate" event
  | err e ↦ err e
]

-- `project not in self.config.data["project"]`: a list or a dict is no key of a dict.
abbrev known_project : Data → Value → Result (Option String)
known_project config (str name) = elim (lookup name config.project) [
  | some _ ↦ ok (some name)
  | none ↦ ok none
]
known_project config (arr _) = err type_error
known_project config (obj _) = err type_error
known_project config _ = ok none

-- `search` is whether `re.search` finds a pattern in a text, `loads` is `json.loads` of the decoded
-- line, and `start_handlers` is what `root.task_start_handlers` do with a task.
module _ (config : Data) (cfg : StreamConfig) (search : String → String → Bool)
    (loads : String → Result Value) (start_handlers : Task → Result (Unit {0})) where
  abbrev create : String → Value → Exec Stream (Option Task)
  create project event = do task ← on_runtime (new_task config cfg project event); pure (some task)

  -- A key that is in the set is left alone; else it is added and the task is made.
  unfoldable pub create_once : String → Value → Exec Stream (Option Task)
  create_once project event s =
      let key = get_key event in
      if contains key s.tasks
      then (ok none, s)
      else create project event (record s { tasks = add key s.tasks })

  abbrev matches : Value → Result Bool
  matches (str comment) = ok (search (or_else cfg.recheck_regexp "^rally-ci recheck$") comment)
  matches _ = err type_error

  unfoldable pub on_comment : String → Value → Exec Stream (Option Task)
  unfolding create_once
  on_comment project event = do
    comment ← lift (index event "comment")
    found ← lift (matches comment)
    if found then create_once project event else pure none

  unfoldable pub on_event : String → Value → Value → Exec Stream (Option Task)
  unfolding on_comment
  on_event project event event_type =
      if is_text event_type "patchset-created"
      then create_once project event
      else if is_text event_type "comment-added"
      then on_comment project event
      else if is_text event_type "ref-updated"
      then create project event
      else pure none

  unfoldable pub on_project : Value → Option String → Exec Stream (Option Task)
  unfolding on_event
  on_project event none = pure none
  on_project event (some project) = do
    event_type ← lift (index event "type")
    on_event project event event_type

  unfoldable pub get_task : Value → Exec Stream (Option Task)
  unfolding on_project project_of
  get_task event = do
    project ← lift (project_of event)
    known ← lift (if truthy project then known_project config project else ok none)
    on_project event known

  -- `Root.start_task`: the handlers come before the task is started.
  unfoldable pub start_task : Option Task → Exec Stream (Unit {0})
  start_task none = pure tt
  start_task (some task) = do
    lift (start_handlers task)
    modify (λ s. record s { running = task ∷ s.running })

  -- `except Exception: LOG.exception(...)`
  abbrev logged : Result (Unit {0}) × Stream → Result (Unit {0}) × Stream
  logged (_, s) = (ok tt, s)

  unfoldable pub handle_event : Value → Exec Stream (Unit {0})
  unfolding get_task start_task
  handle_event event s = logged ((get_task event >>= start_task) s)

  unfoldable pub handle_line : Line → Exec Stream (Unit {0})
  unfolding handle_event
  handle_line (text line) = pure tt
  handle_line (bytes line) =
      if line == "" then pure tt else (do event ← lift (loads line); handle_event event)

-- `self.stream.tasks.remove(key)`
unfoldable pub remove_key : String → Exec Stream (Unit {0})
remove_key key s =
    if contains key s.tasks
    then (ok tt, record s { tasks = discard key s.tasks })
    else (err key_error, s)

-- `Task.cleanup`: what publishing and the end handlers raise is logged, and goes no further.
unfoldable pub cleanup : StreamConfig → Task → Exec Stream (Unit {0})
unfolding remove_key
cleanup cfg task = do
  now ← gets (λ s. s.runtime.clock)
  remove_key (get_key task.event)
  modify (λ s. if cfg.silent then s else record s { published = task ∷ s.published })
  modify (λ s. record s { ended = record task { finished_at = now } ∷ s.ended })
