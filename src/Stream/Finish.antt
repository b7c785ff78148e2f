-- ===== src/Stream/Finish.antt =====
-- How a task comes to run, and what is left of it when it is done.
use rally_ci.Prelude.{
  String, ◌≡◌, ◌≢◌, Bool, true, false, some, ◌∷◌, ◌==◌, if◌then◌else◌, arith, eq_iff, eq_refl,
}
use rally_ci.Prelude.Dict.{lookup, contains, contains-discard, contains-add}
use rally_ci.Python.{key_error, Result, ok, err}
use rally_ci.Python.Value.{Value, str, index}
use rally_ci.Config.Data.{Data, StreamConfig, ProjectConfig}
use rally_ci.Task.Key.{get_key}
use rally_ci.Task.Create.{Task, new_task}
use rally_ci.Stream.{Stream, project_of, handle_event, cleanup}

-- Cleaning up a task whose key is held frees that key and no other, publishes the results unless the
-- stream is silent, and tells the end handlers, with the time; cleaning up one whose key is not held
-- raises KeyError and does none of this.
pub cleanup_lem :
    (cfg : StreamConfig) (t : Task) (s : Stream)
    → let after = cleanup cfg t s in
      (contains (get_key t.event) s.tasks ≡ true
        → (after.0 ≡ ok tt)
          × ((key : String)
              → contains key after.1.tasks
                ≡ (if get_key t.event == key then false else contains key s.tasks))
          × (after.1.published ≡ (if cfg.silent then s.published else t ∷ s.published))
          × (after.1.ended ≡ record t { finished_at = s.runtime.clock } ∷ s.ended)
          × (after.1.running ≡ s.running))
      × (contains (get_key t.event) s.tasks ≡ false → (after.0 ≡ err key_error) × (after.1 ≡ s))
unfolding cleanup
cleanup_lem cfg t s = (
  λ held. (
    rw held,
    λ key. rw held (ground (arith, contains-discard (get_key t.event) key s.tasks)),
    rw held (ground arith),
    rw held (ground arith),
    rw held (ground arith),
  ),
  λ free. (rw free, rw free),
)

-- A patch set of a known project whose task can be made.
pub record Starts (config : Data) (cfg : StreamConfig) (start_handlers : Task → Result (Unit {0}))
    (event : Value) (s : Stream) : Type 0 where
  pub project : String
  pub found : project_of event ≡ ok (str project)
  pub named : project ≢ ""
  pub project_cfg : ProjectConfig
  pub known : lookup project config.project ≡ some project_cfg
  pub typed : index event "type" ≡ ok (str "patchset-created")
  pub task : Task
  pub made : (new_task config cfg project event s.runtime).0 ≡ ok task
  pub welcome : start_handlers task ≡ ok tt

module _ (config : Data) (cfg : StreamConfig) (search : String → String → Bool)
    (loads : String → Result Value) (start_handlers : Task → Result (Unit {0})) where
  -- A new patch set of a known project starts its task and holds its key if the key is free, provided
  -- that the task can be made and no start handler raises; if the key is held, then nothing changes.
  pub handle_event-Starts :
      (event : Value) (s : Stream) (e : Starts config cfg start_handlers event s)
      → let after = (handle_event config cfg search loads start_handlers event s).1 in
        (contains (get_key event) s.tasks ≡ false
          → (after.running ≡ e.task ∷ s.running) × (contains (get_key event) after.tasks ≡ true))
        × (contains (get_key event) s.tasks ≡ true → after ≡ s)
  unfolding handle_event
  handle_event-Starts event s e = (
    λ free. ground (
      arith,
      e.found,
      e.known,
      e.typed,
      e.made,
      e.welcome,
      contains-add (get_key event) (get_key event) s.tasks,
      eq_refl (get_key event),
      eq_iff e.project "",
    ),
    λ held. ground (arith, e.found, e.known, e.typed, eq_iff e.project ""),
  )
