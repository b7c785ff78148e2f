-- ===== src/Stream/Handled.antt =====
-- What the handling of an event can do to a stream.
use mathlib.Core.Option.{some-injective}
use rally_ci.Prelude.{
  String, ◌≡◌, ◌≢◌, refl, Bool, true, false, Option, none, some, if◌then◌else◌, Bool-cases, inl,
  inr,
}
use rally_ci.Prelude.Dict.{contains, add}
use rally_ci.Python.{Result, ok, err, Result-cases, ok-injective}
use rally_ci.Python.Exec.{Exec, follow}
use rally_ci.Python.Value.{Value, index, truthy}
use rally_ci.Config.Data.{Data, StreamConfig}
use rally_ci.Task.Key.{get_key}
use rally_ci.Task.Create.{Task, is_text, new_task}
use rally_ci.Task.Create.Jobs.{new_task-Created}
use rally_ci.Stream.{
  Stream, create, create_once, matches, on_comment, on_event, on_project, known_project, project_of,
  get_task,
}

-- The event is a ref update.
abbrev pub IsRefUpdate : Value → Type 0
IsRefUpdate event =
    (event_type : Value) × (index event "type" ≡ ok event_type)
    × (is_text event_type "ref-updated" ≡ true)

abbrev pub MadeFrom : Value → Result (Option Task) → Type 0
MadeFrom event result = (t : Task) → result ≡ ok (some t) → t.event ≡ event

-- `idle`: no task, and the keys stay. `claimed`: the key of the event was free and is added, and if a
-- task is made it is of the event. `unkeyed`: the same for a ref update, which adds no key.
pub data Handled (s : Stream) (event : Value) (after : Result (Option Task) × Stream) : Type 0 where
  idle :
      after.1.tasks ≡ s.tasks
      → after.1.running ≡ s.running
      → ((t : Task) → after.0 ≢ ok (some t))
      → Handled s event after
  claimed :
      contains (get_key event) s.tasks ≡ false
      → after.1.tasks ≡ add (get_key event) s.tasks
      → after.1.running ≡ s.running
      → MadeFrom event after.0
      → Handled s event after
  unkeyed :
      IsRefUpdate event
      → after.1.tasks ≡ s.tasks
      → after.1.running ≡ s.running
      → MadeFrom event after.0
      → Handled s event after

module _ (config : Data) (cfg : StreamConfig) (search : String → String → Bool)
    (loads : String → Result Value) (start_handlers : Task → Result (Unit {0})) where
  abbrev creates : String → Value → Exec Stream (Option Task)
  creates = create config cfg search loads start_handlers

  create_frame :
      (project : String) (event : Value) (s : Stream)
      → ((creates project event s).1.tasks ≡ s.tasks)
        × ((creates project event s).1.running ≡ s.running)
        × MadeFrom event (creates project event s).0
  create_frame project event s =
      elim (Result-cases (new_task config cfg project event s.runtime).0) [
        | inl (made, e) ↦ rw e (
          refl,
          refl,
          λ t h.
              let same : made ≡ t = some-injective made t (ok-injective h) in
              rw (← same) (new_task-Created config cfg project event s.runtime made e).about.0,
        )
        | inr (x, e) ↦ rw e (refl, refl, λ t h. cc)
      ]

  create_once-Handled :
      (project : String) (event : Value) (s : Stream)
      → Handled s event (create_once config cfg search loads start_handlers project event s)
  unfolding create_once
  create_once-Handled project event s = elim (Bool-cases (contains (get_key event) s.tasks)) [
    | inl e ↦ rw e (idle refl refl (λ t h. cc))
    | inr e ↦
        let (kept, ran, made) =
          create_frame project event (record s { tasks = add (get_key event) s.tasks }) in
        rw e (claimed e kept ran made)
  ]

  idle_here :
      (event : Value) (s : Stream) (result : Result (Option Task))
      → ((t : Task) → result ≢ ok (some t))
      → Handled s event (result, s)
  idle_here event s result h = idle refl refl h

  on_comment-Handled :
      (project : String) (event : Value) (s : Stream)
      → Handled s event (on_comment config cfg search loads start_handlers project event s)
  unfolding on_comment
  on_comment-Handled project event s = elim (Result-cases (index event "comment")) [
    | inr (x, e) ↦ rw e (idle_here event s (err x) (λ t h. cc))
    | inl (comment, e) ↦
        elim (Result-cases (matches config cfg search loads start_handlers comment)) [
          | inr (x, e') ↦ rw (e, e') (idle_here event s (err x) (λ t h. cc))
          | inl (true, e') ↦ rw (e, e') (create_once-Handled project event s)
          | inl (false, e') ↦ rw (e, e') (idle_here event s (ok none) (λ t h. cc))
        ]
  ]

  on_event-Handled :
      (project : String) (event event_type : Value) (s : Stream)
      → index event "type" ≡ ok event_type
      → Handled s event (on_event config cfg search loads start_handlers project event event_type s)
  unfolding on_event
  on_event-Handled project event event_type s typed =
      elim (Bool-cases (is_text event_type "patchset-created")) [
        | inl e ↦ rw e (create_once-Handled project event s)
        | inr e ↦ rw e (elim (Bool-cases (is_text event_type "comment-added")) [
          | inl e₁ ↦ rw e₁ (on_comment-Handled project event s)
          | inr e₁ ↦ rw e₁ (elim (Bool-cases (is_text event_type "ref-updated")) [
            | inl e₂ ↦
                let (kept, ran, made) = create_frame project event s in
                rw e₂ (unkeyed (event_type, typed, e₂) kept ran made)
            | inr e₂ ↦ rw e₂ (idle_here event s (ok none) (λ t h. cc))
          ])
        ])
      ]

  on_project-Handled :
      (event : Value) (known : Option String) (s : Stream)
      → Handled s event (on_project config cfg search loads start_handlers event known s)
  unfolding on_project
  on_project-Handled event none s = idle_here event s (ok none) (λ t h. cc)
  on_project-Handled event (some project) s = elim (Result-cases (index event "type")) [
    | inl (event_type, e) ↦ rw e (on_event-Handled project event event_type s e)
    | inr (x, e) ↦ rw e (idle_here event s (err x) (λ t h. cc))
  ]

  follow-Handled :
      {A : Type 0} (event : Value) (r : Result A) (f : A → Exec Stream (Option Task)) (s : Stream)
      → ((a : A) → Handled s event (f a s))
      → Handled s event (follow r f s)
  follow-Handled event (ok a) f s h = h a
  follow-Handled event (err x) f s h = idle_here event s (err x) (λ t e. cc)

  -- Whatever an event holds, it leaves the tasks that run alone, and it adds no key but its own.
  pub get_task-Handled :
      (event : Value) (s : Stream)
      → Handled s event (get_task config cfg search loads start_handlers event s)
  unfolding get_task
  get_task-Handled event s = follow-Handled event (project_of event) _ s λ project.
      follow-Handled event (if truthy project then known_project config project else ok none) _ s
        λ known. on_project-Handled event known s
