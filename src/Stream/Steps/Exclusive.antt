-- ===== src/Stream/Steps/Exclusive.antt =====
-- How many tasks run for one patch set, over the whole life of a stream.
use rally_ci.Prelude.{
  ℕ, zero, suc, ◌+◌, ◌≤◌, String, ◌≡◌, ◌≢◌, refl, ap, Bool, true, false, Option, none, some, List,
  [], ◌∷◌, ◌==◌, arith, eq_iff, Bool-cases, Option-cases, inl, inr, All,
}
use rally_ci.Prelude.Dict.{contains, contains-add, contains-discard}
use rally_ci.Python.{Result, ok, err, Result-cases}
use rally_ci.Python.Exec.{follow}
use rally_ci.Python.Value.{Value}
use rally_ci.Config.Data.{Data, StreamConfig}
use rally_ci.Task.Key.{get_key}
use rally_ci.Task.Create.{Task}
use rally_ci.Stream.{Stream, Line, bytes, text, start_task, handle_event, handle_line, cleanup}
use rally_ci.Stream.Handled.{Handled, idle, claimed, unkeyed, IsRefUpdate, get_task-Handled}
use rally_ci.Stream.Steps.{Step, receives, finishes, pick, step, run}

abbrev pub one_if : Bool → ℕ
one_if true = 1
one_if false = 0

-- How many of the tasks are of the patch set `key`.
abbrev pub count_key : String → List Task → ℕ
count_key key [] = 0
count_key key (t ∷ ts) = one_if (get_key t.event == key) + count_key key ts

-- At most one task runs for a key, and only while the key is in the set.
abbrev pub Holds : String → Stream → Type 0
Holds key s = count_key key s.running ≤ one_if (contains key s.tasks)

-- What gerrit sends for a ref update has no patch set.
abbrev pub IsGerrit : Value → Type 0
IsGerrit event = IsRefUpdate event → get_key event ≡ ""

-- The same for what a line holds.
abbrev pub LineIsGerrit : (String → Result Value) → Step → Type 0
LineIsGerrit loads (receives (bytes line)) =
    (event : Value) → loads line ≡ ok event → IsGerrit event
LineIsGerrit loads _ = Unit {0}

abbrev count_picked : String → Option (Task × List Task) → ℕ
count_picked key none = 0
count_picked key (some (t, others)) = one_if (get_key t.event == key) + count_key key others

pub count_key-pick :
    (key : String) (n : ℕ) (ts : List Task) (t : Task) (others : List Task)
    → pick n ts ≡ some (t, others)
    → count_key key ts ≡ one_if (get_key t.event == key) + count_key key others
count_key-pick key n [] t others e = cc
count_key-pick key zero (u ∷ us) t others e = ground arith
count_key-pick key (suc n) (u ∷ us) t others e = elim (Option-cases (pick n us)) [
  | inl e' ↦ cc (rw e' at e)
  | inr ((v, vs), e') ↦
      omega (arith, count_key-pick key n us v vs e', ap (count_picked key) (rw e' at e))
]

module _ (key : String) (keyed : key ≢ "") where
  cleanup-Holds :
      (cfg : StreamConfig) (t : Task) (s : Stream)
      → one_if (get_key t.event == key) + count_key key s.running ≤ one_if (contains key s.tasks)
      → Holds key (cleanup cfg t s).1
  unfolding cleanup
  cleanup-Holds cfg t s h =
      ground (arith, contains-discard (get_key t.event) key s.tasks, eq_iff (get_key t.event) key)

  -- The event was handled and its task, if it made one, is yet to be started.
  Handled-Holds :
      {s : Stream} {event : Value} {after : Result (Option Task) × Stream}
      → Handled s event after
      → IsGerrit event
      → Holds key s
      → Holds key after.1
        × ((t : Task)
            → after.0 ≡ ok (some t)
            → one_if (get_key t.event == key) + count_key key after.1.running
              ≤ one_if (contains key after.1.tasks))
  Handled-Holds (idle kept ran none_made) g h = (rw (kept, ran) h, λ t e. absurd (none_made t e))
  Handled-Holds {s} {event} (claimed free kept ran made) g h = (
    ground (arith, kept, ran, contains-add (get_key event) key s.tasks, eq_iff (get_key event) key),
    λ t e. ground (
      arith,
      kept,
      ran,
      ap get_key (made t e),
      free,
      contains-add (get_key event) key s.tasks,
      eq_iff (get_key event) key,
    ),
  )
  Handled-Holds {s} {event} (unkeyed ref kept ran made) g h = (
    rw (kept, ran) h,
    λ t e. ground (arith, kept, ran, ap get_key (made t e), g ref, eq_iff (get_key event) key),
  )

  module _ (config : Data) (cfg : StreamConfig) (search : String → String → Bool)
      (loads : String → Result Value) (start_handlers : Task → Result (Unit {0})) where
    start_task-Holds :
        (result : Result (Option Task)) (s : Stream)
        → Holds key s
        → ((t : Task)
            → result ≡ ok (some t)
            → one_if (get_key t.event == key) + count_key key s.running
              ≤ one_if (contains key s.tasks))
        → Holds key (follow result (start_task config cfg search loads start_handlers) s).1
    unfolding start_task
    start_task-Holds (err x) s h room = h
    start_task-Holds (ok none) s h room = h
    start_task-Holds (ok (some t)) s h room = ground (arith, room t refl)

    handle_event-Holds :
        (event : Value) (s : Stream)
        → IsGerrit event
        → Holds key s
        → Holds key (handle_event config cfg search loads start_handlers event s).1
    unfolding handle_event
    handle_event-Holds event s g h =
        let (held, room) =
          Handled-Holds (get_task-Handled config cfg search loads start_handlers event s) g h in
        start_task-Holds _ _ held room

    handle_line-Holds :
        (line : Line) (s : Stream)
        → LineIsGerrit loads (receives line)
        → Holds key s
        → Holds key (handle_line config cfg search loads start_handlers line s).1
    unfolding handle_line
    handle_line-Holds (text line) s g h = h
    handle_line-Holds (bytes line) s g h = elim (Bool-cases (line == "")) [
      | inl e ↦ rw (e, handle_line) h
      | inr e ↦ elim (Result-cases (loads line)) [
        | inl (event, e') ↦ rw (e, e', handle_line) (handle_event-Holds event s (g event e') h)
        | inr (x, e') ↦ rw (e, e', handle_line) h
      ]
    ]

    step-Holds :
        (e : Step) (s : Stream)
        → LineIsGerrit loads e
        → Holds key s
        → Holds key (step config cfg search loads start_handlers s e)
    unfolding step
    step-Holds (receives line) s g h = handle_line-Holds line s g h
    step-Holds (finishes n) s g h = elim (Option-cases (pick n s.running)) [
      | inl e ↦ rw (e, step) h
      | inr ((t, others), e) ↦
          rw (e, step)
            (cleanup-Holds cfg t (record s { running = others })
              (omega (arith, count_key-pick key n s.running t others e, h)))
    ]

    -- If at most one task runs for a patch set, and one only while its key is held, then this is so
    -- after any steps: lines that come in, whatever they hold, and tasks that finish in any order. Ref
    -- updates name no patch set, by assumption.
    pub run-Holds :
        (es : List Step) (s : Stream)
        → All (LineIsGerrit loads) es
        → Holds key s
        → Holds key (run config cfg search loads start_handlers s es)
    unfolding run
    run-Holds [] s g h = h
    run-Holds (e ∷ es) s (g, gs) h =
        run-Holds es (step config cfg search loads start_handlers s e) gs (step-Holds e s g h)
