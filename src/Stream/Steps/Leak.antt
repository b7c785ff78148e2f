-- ===== src/Stream/Steps/Leak.antt =====
-- A patch set whose task cannot be made: its key stays in the set.
use rally_ci.Prelude.{
  ◌+◌, String, ◌≡◌, ◌≢◌, refl, ap, Bool, true, false, Option, none, some, List, [], ◌∷◌, ◌==◌,
  arith, eq_iff, eq_refl, Bool-cases, Option-cases, inl, inr, All,
}
use rally_ci.Prelude.Dict.{lookup, contains, contains-add, contains-discard}
use rally_ci.Python.{Exception, Result, ok, err, Result-cases}
use rally_ci.Python.Exec.{follow}
use rally_ci.Python.Value.{Value, str, index}
use rally_ci.Config.Data.{Data, StreamConfig, ProjectConfig}
use rally_ci.Task.Key.{get_key}
use rally_ci.Task.Create.{Task, new_task}
use rally_ci.Stream.{
  Stream, Line, bytes, text, project_of, start_task, handle_event, handle_line, cleanup,
}
use rally_ci.Stream.Handled.{Handled, idle, claimed, unkeyed, get_task-Handled}
use rally_ci.Stream.Steps.{Step, receives, finishes, pick, step, run}
use rally_ci.Stream.Steps.Exclusive.{one_if, count_key, count_key-pick, IsGerrit, LineIsGerrit}

-- The key is taken, and no task runs for it.
abbrev pub IsStuck : String → Stream → Type 0
IsStuck key s = (contains key s.tasks ≡ true) × (count_key key s.running ≡ 0)

module _ (key : String) (keyed : key ≢ "") where
  cleanup-IsStuck :
      (cfg : StreamConfig) (t : Task) (s : Stream)
      → contains key s.tasks ≡ true
      → one_if (get_key t.event == key) + count_key key s.running ≡ 0
      → IsStuck key (cleanup cfg t s).1
  unfolding cleanup
  cleanup-IsStuck cfg t s c h =
      ground (arith, contains-discard (get_key t.event) key s.tasks, eq_iff (get_key t.event) key)

  Handled-IsStuck :
      {s : Stream} {event : Value} {after : Result (Option Task) × Stream}
      → Handled s event after
      → IsGerrit event
      → IsStuck key s
      → IsStuck key after.1
        × ((t : Task) → after.0 ≡ ok (some t) → (get_key t.event == key) ≡ false)
  Handled-IsStuck (idle kept ran none_made) g h = (rw (kept, ran) h, λ t e. absurd (none_made t e))
  Handled-IsStuck {s} {event} (claimed free kept ran made) g h = (
    ground (
      arith,
      kept,
      ran,
      free,
      contains-add (get_key event) key s.tasks,
      eq_iff (get_key event) key,
    ),
    λ t e. ground (arith, ap get_key (made t e), free, eq_iff (get_key event) key),
  )
  Handled-IsStuck {s} {event} (unkeyed ref kept ran made) g h = (
    rw (kept, ran) h,
    λ t e. ground (arith, ap get_key (made t e), g ref, eq_iff (get_key event) key),
  )

  module _ (config : Data) (cfg : StreamConfig) (search : String → String → Bool)
      (loads : String → Result Value) (start_handlers : Task → Result (Unit {0})) where
    start_task-IsStuck :
        (result : Result (Option Task)) (s : Stream)
        → IsStuck key s
        → ((t : Task) → result ≡ ok (some t) → (get_key t.event == key) ≡ false)
        → IsStuck key (follow result (start_task config cfg search loads start_handlers) s).1
    unfolding start_task
    start_task-IsStuck (err x) s h other = h
    start_task-IsStuck (ok none) s h other = h
    start_task-IsStuck (ok (some t)) s h other = ground (arith, other t refl)

    handle_event-IsStuck :
        (event : Value) (s : Stream)
        → IsGerrit event
        → IsStuck key s
        → IsStuck key (handle_event config cfg search loads start_handlers event s).1
    unfolding handle_event
    handle_event-IsStuck event s g h =
        let (held, other) =
          Handled-IsStuck (get_task-Handled config cfg search loads start_handlers event s) g h in
        start_task-IsStuck _ _ held other

    handle_line-IsStuck :
        (line : Line) (s : Stream)
        → LineIsGerrit loads (receives line)
        → IsStuck key s
        → IsStuck key (handle_line config cfg search loads start_handlers line s).1
    unfolding handle_line
    handle_line-IsStuck (text line) s g h = h
    handle_line-IsStuck (bytes line) s g h = elim (Bool-cases (line == "")) [
      | inl e ↦ rw (e, handle_line) h
      | inr e ↦ elim (Result-cases (loads line)) [
        | inl (event, e') ↦ rw (e, e', handle_line) (handle_event-IsStuck event s (g event e') h)
        | inr (x, e') ↦ rw (e, e', handle_line) h
      ]
    ]

    step-IsStuck :
        (e : Step) (s : Stream)
        → LineIsGerrit loads e
        → IsStuck key s
        → IsStuck key (step config cfg search loads start_handlers s e)
    unfolding step
    step-IsStuck (receives line) s g h = handle_line-IsStuck line s g h
    step-IsStuck (finishes n) s g h = elim (Option-cases (pick n s.running)) [
      | inl e ↦ rw (e, step) h
      | inr ((t, others), e) ↦
          rw (e, step)
            (cleanup-IsStuck cfg t (record s { running = others }) h.0
              (omega (arith, count_key-pick key n s.running t others e, h.1)))
    ]

    run-IsStuck :
        (es : List Step) (s : Stream)
        → All (LineIsGerrit loads) es
        → IsStuck key s
        → IsStuck key (run config cfg search loads start_handlers s es)
    unfolding run
    run-IsStuck [] s g h = h
    run-IsStuck (e ∷ es) s (g, gs) h =
        run-IsStuck es (step config cfg search loads start_handlers s e) gs (step-IsStuck e s g h)

-- A patch set of a known project whose task cannot be made, since `Task` raises.
pub record Fails (config : Data) (cfg : StreamConfig) (event : Value) (s : Stream) : Type 0 where
  pub project : String
  pub found : project_of event ≡ ok (str project)
  pub named : project ≢ ""
  pub project_cfg : ProjectConfig
  pub known : lookup project config.project ≡ some project_cfg
  pub typed : index event "type" ≡ ok (str "patchset-created")
  pub error : Exception
  pub raises : (new_task config cfg project event s.runtime).0 ≡ err error

module _ (config : Data) (cfg : StreamConfig) (search : String → String → Bool)
    (loads : String → Result Value) (start_handlers : Task → Result (Unit {0})) where
  handle_event-Fails :
      (event : Value) (s : Stream)
      → Fails config cfg event s
      → contains (get_key event) s.tasks ≡ false
      → count_key (get_key event) s.running ≡ 0
      → IsStuck (get_key event) (handle_event config cfg search loads start_handlers event s).1
  unfolding handle_event
  handle_event-Fails event s f free idle_key = ground (
    arith,
    f.found,
    f.known,
    f.typed,
    f.raises,
    contains-add (get_key event) (get_key event) s.tasks,
    eq_refl (get_key event),
    eq_iff f.project "",
  )

  -- If `Task` raises for a new patch set of a known project, as it does where the project lists a job
  -- that is not configured, then no task ever runs for that patch set, whatever comes later: its key was
  -- added first, and nothing takes it out again. Ref updates name no patch set, by assumption.
  pub leaked_key-never_runs :
      (event : Value) (s : Stream) (es : List Step)
      → get_key event ≢ ""
      → Fails config cfg event s
      → contains (get_key event) s.tasks ≡ false
      → count_key (get_key event) s.running ≡ 0
      → All (LineIsGerrit loads) es
      → count_key
          (get_key event)
          (run config cfg search loads start_handlers
            (handle_event config cfg search loads start_handlers event s).1
            es).running
        ≡ 0
  leaked_key-never_runs event s es keyed f free idle_key g =
      (run-IsStuck (get_key event) keyed config cfg search loads start_handlers es _ g
        (handle_event-Fails event s f free idle_key)).1
