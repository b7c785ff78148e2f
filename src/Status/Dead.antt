-- ===== src/Status/Dead.antt =====
-- What a client that always raises does to jobs and tasks, by way of the update and start handlers.
use rally_ci.Prelude.{
  ℕ, ◌≡◌, refl, ap, sym, ◌∙◌, Bool, true, false, List, [], ◌∷◌, ◌++◌, eqb, eqb_iff, arith,
  Bool-cases, inl, inr, Option, String, eq_iff, eq_refl,
}
use rally_ci.Prelude.Dict.{contains, contains-add}
use rally_ci.Python.{Exception, Result, ok, err, Result-cases}
use rally_ci.Python.Exec.{Exec}
use rally_ci.Python.Value.{Value}
use rally_ci.Config.Data.{Data, RunnerConfig, RunnerLocal, StreamConfig}
use rally_ci.Job.{Job, Run, run, set_status}
use rally_ci.Job.View as JobView
use rally_ci.Task.Create.{Task}
use rally_ci.Task.Key.{get_key}
use rally_ci.Task.View as TaskView
use rally_ci.Root.{has, call_each}
use rally_ci.Stream.{Stream, handle_event}
use rally_ci.Stream.Finish.{Starts}
use rally_ci.Status.{
  Status, send, send_each, send_all, job_status_cb, job_status_message, task_started_cb,
  task_started_message,
}

-- The action raises.
abbrev pub IsRaised : Result (Unit {0}) → Type 0
IsRaised r = (x : Exception) × (r ≡ err x)

call_each-IsRaised :
    {A : Type 0} (before after : List (A → Result (Unit {0}))) (cb : A → Result (Unit {0})) (a : A)
    → IsRaised (cb a)
    → IsRaised (call_each (before ++ cb ∷ after) a)
unfolding call_each
call_each-IsRaised [] after cb a (x, raised) = rw raised (x, refl)
call_each-IsRaised (f ∷ before) after cb a raised = elim (Result-cases (f a)) [
  | inl (u, e) ↦ rw e (call_each-IsRaised before after cb a raised)
  | inr (x, e) ↦ rw e (x, refl)
]

module _ (deliver : ℕ → ℕ → Value → Result (Unit {0})) (s : Status) (c : ℕ) (e : Exception)
    (listed : has c s.clients ≡ true) (dead : (k : ℕ) (v : Value) → deliver k c v ≡ err e) where
  not_both : (a : Unit {0}) → ok a ≡ err e → ⊥
  not_both a h = cc

  send_each-IsRaised :
      (v : Value) (cs : List ℕ) (t : Status)
      → has c cs ≡ true
      → IsRaised (send_each deliver v cs t).0
  unfolding send_each send has
  send_each-IsRaised v [] t h = cc
  send_each-IsRaised v (d ∷ ds) t h = elim (Result-cases (deliver t.sends d v)) [
    | inr (x, raised) ↦ rw raised (x, refl)
    | inl (a, taken) ↦ elim (Bool-cases (eqb d c)) [
      | inl same ↦
          let is_dead = ap (λ x. deliver t.sends x v) ((eqb_iff d c).0 same) ∙ dead t.sends v in
          absurd (not_both a (sym taken ∙ is_dead))
      | inr other ↦ rw taken (send_each-IsRaised v ds _ (ground (arith, h, other)))
    ]
  ]

  send_all-IsRaised : (v : Value) → IsRaised (send_all deliver v s).0
  unfolding send_all
  send_all-IsRaised v = send_each-IsRaised v s.clients s listed

  start_handlers-IsRaised : (now : ℕ) (t : Task) → IsRaised (task_started_cb deliver now t s).0
  unfolding task_started_cb
  start_handlers-IsRaised now t = elim (Result-cases (TaskView.to_dict now t)) [
    | inl (v, shown) ↦ rw shown (send_all-IsRaised (task_started_message v))
    | inr (x, raised) ↦ rw raised (x, refl)
  ]

  -- If one of the clients of the page raises at every attempt to send to it, then a run of a job raises
  -- before its runner is made, whatever other update handlers there are: no script is played, the status
  -- stays "queued" and `error` is as it was before.
  pub run-IsRaised :
      (before after : List (Job → Result (Unit {0}))) (now : ℕ) (config : Data)
      (build : RunnerConfig → RunnerLocal → Result (Exec Run (Option ℕ))) (started finished : ℕ)
      (r : Run)
      → let handlers = before ++ (λ j. (job_status_cb deliver now j s).0) ∷ after in
        let ran = run (call_each handlers) config build started finished r in
        IsRaised ran.0
        × (ran.1.scripts ≡ r.scripts)
        × (ran.1.job ≡ record r.job { status = "queued" })
  unfolding run set_status job_status_cb
  run-IsRaised before after now config build started finished r =
      let queued = record r.job { status = "queued" } in
      let (x, raised) =
        call_each-IsRaised before after (λ j. (job_status_cb deliver now j s).0) queued
          (send_all-IsRaised (job_status_message (JobView.to_dict now queued))) in
      rw raised ((x, refl), refl, refl)

  -- If one of the clients of the page raises at every attempt to send to it, then a new patch set whose
  -- task would start if no start handler raised starts no task, whatever other start handlers there are,
  -- and its key is held.
  pub handle_event-holds :
      (before after : List (Task → Result (Unit {0}))) (now : ℕ) (config : Data)
      (cfg : StreamConfig) (search : String → String → Bool) (loads : String → Result Value)
      (event : Value) (stream : Stream)
      → Starts config cfg (λ t. ok tt) event stream
      → contains (get_key event) stream.tasks ≡ false
      → let handlers = before ++ (λ t. (task_started_cb deliver now t s).0) ∷ after in
        let handled = (handle_event config cfg search loads (call_each handlers) event stream).1 in
        (handled.running ≡ stream.running) × (contains (get_key event) handled.tasks ≡ true)
  unfolding handle_event
  handle_event-holds before after now config cfg search loads event stream new free =
      let (x, raised) =
        call_each-IsRaised before after (λ t. (task_started_cb deliver now t s).0) new.task
          (start_handlers-IsRaised now new.task) in
      ground (
        arith,
        new.found,
        new.known,
        new.typed,
        new.made,
        raised,
        free,
        contains-add (get_key event) (get_key event) stream.tasks,
        eq_refl (get_key event),
        eq_iff new.project "",
      )
