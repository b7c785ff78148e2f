-- ===== src/Status/Recent.antt =====
-- The tasks that the page still shows when they have ended.
use rally_ci.Prelude.{
  ℕ, ◌≤◌, ◌≡◌, refl, true, false, Bool, List, [], ◌∷◌, ◌++◌, append_assoc, append-nil, length,
  length-append, leb, arith, if◌then◌else◌, Bool-cases, inl, inr, ap, sym, ◌∙◌,
}
use rally_ci.Python.{Exception, disconnected_error, Result, ok, err, Result-cases}
use rally_ci.Python.Value.{Value}
use rally_ci.Job.{Job}
use rally_ci.Task.Create.{Task}
use rally_ci.Task.View as TaskView
use rally_ci.Root.{has}
use rally_ci.Status.{
  Status, new_status, append_ten, on_exception, leave, unless_raised, connect, greet,
  open_connection, tick, send_statistics, statistics, task_started_cb, task_started_message,
  task_finished_cb, job_status_cb, task_finished_message,
}
use rally_ci.Periodic.{Periodic, fire}
use rally_ci.Status.Sent.{Same-refl, greet-Same, send_all-Same}
use rally_ci.Status.Steps.{
  Received, message, close, raises, receive, Event, opens, receives, task_starts, job_updates,
  task_ends, ticks, step, steps,
}

abbrev ten_of {ℓ} : {A : Type ℓ} → List A → List A → A → List A
ten_of xs rest x = if leb 10 (length xs) then rest else x ∷ xs

-- The last ten elements, in order
unfoldable pub last_ten {ℓ} : {A : Type ℓ} → List A → List A
last_ten [] = []
last_ten (x ∷ xs) = let rest = last_ten xs in ten_of xs rest x

-- The dicts of the tasks that have ended, as they were then, in order; a task without one is left out.
unfoldable pub ended : List Event → List Value
ended [] = []
ended (task_ends now t ∷ es) = elim (TaskView.to_dict now t) [
  | ok v ↦ v ∷ ended es
  | err e ↦ ended es
]
ended (_ ∷ es) = ended es

module _ {ℓ} {A : Type ℓ} where
  last_ten-short : (xs : List A) → length xs ≤ 10 → last_ten xs ≡ xs
  unfolding last_ten
  last_ten-short [] le = refl
  last_ten-short (x ∷ xs) le = ground (arith, le)

  last_ten-long : (x : A) (xs : List A) → 10 ≤ length xs → last_ten (x ∷ xs) ≡ last_ten xs
  unfolding last_ten
  last_ten-long x xs le = ground (arith, le)

  -- Nine elements after the first: the first one goes.
  full_or_not :
      (y : A) (ys : List A) (x : A)
      → leb 10 (length ys) ≡ false
      → append_ten (y ∷ ys) x ≡ last_ten (y ∷ ys ++ x ∷ [])
  unfolding append_ten
  full_or_not y ys x short = elim (Bool-cases (leb 10 (length (y ∷ ys)))) [
    | inl full ↦
        rw (full, last_ten-long y (ys ++ x ∷ []) (ground (arith, full, length-append ys (x ∷ []))))
          (sym (last_ten-short (ys ++ x ∷ []) (ground (arith, short, length-append ys (x ∷ [])))))
    | inr room ↦
        rw room (
          sym (last_ten-short (y ∷ ys ++ x ∷ []) (ground (arith, room, length-append ys (x ∷ [])))))
  ]

  append_ten-last_ten : (xs : List A) (x : A) → append_ten (last_ten xs) x ≡ last_ten (xs ++ x ∷ [])
  unfolding append_ten
  append_ten-last_ten [] x =
      rw (last_ten-short [] (omega arith), last_ten-short (x ∷ []) (omega arith)) refl
  append_ten-last_ten (y ∷ ys) x = elim (Bool-cases (leb 10 (length ys))) [
    | inl long ↦
        rw
          (
            last_ten-long y ys (ground (arith, long)),
            last_ten-long y (ys ++ x ∷ []) (ground (arith, long, length-append ys (x ∷ []))),
          )
          (append_ten-last_ten ys x)
    | inr short ↦ rw (last_ten-short (y ∷ ys) (ground (arith, short))) (full_or_not y ys x short)
  ]

on_exception-finished :
    (c : ℕ) (e : Exception) (s : Status) → (on_exception c e s).finished ≡ s.finished
unfolding on_exception leave
on_exception-finished c disconnected_error s = refl
on_exception-finished c _ s = refl

receive-finished :
    (b : Bool) (c : ℕ) (r : Received) (s : Status)
    → (if b then receive c r s else s).finished ≡ s.finished
unfolding receive leave
receive-finished false c r s = refl
receive-finished true c message s = refl
receive-finished true c close s = refl
receive-finished true c (raises e) s = on_exception-finished c e s

module _ (deliver : ℕ → ℕ → Value → Result (Unit {0})) where
  unless_raised-finished :
      (c : ℕ) (r : Result (Unit {0})) (s : Status)
      → (unless_raised deliver c (r, s)).finished ≡ s.finished
  unless_raised-finished c (ok tt) s = refl
  unless_raised-finished c (err e) s = on_exception-finished c e s

  connect-finished :
      (now : ℕ) (tasks : List Task) (s : Status)
      → (connect deliver now tasks s).finished ≡ s.finished
  unfolding connect
  connect-finished now tasks s =
      let (r, t) = greet deliver now tasks s.made (open_connection s) in
      unless_raised-finished s.made r t
      ∙ (greet-Same deliver (open_connection s) now tasks s.made (open_connection s)
          (Same-refl _)).finished

  tick-finished : (t memory : ℕ) (s : Status) → (tick deliver t memory s).finished ≡ s.finished
  unfolding tick
  tick-finished t memory s = statistics-finished memory (fire t s.stats_sender) s
    where
      statistics-finished :
          (memory : ℕ) (fired : Bool × Periodic) (s : Status)
          → (send_statistics deliver memory fired s).finished ≡ s.finished
      statistics-finished memory (false, p) s = refl
      statistics-finished memory (true, p) s =
          (send_all-Same deliver _ (statistics memory) _ (Same-refl _)).finished

  task_started-finished :
      (now : ℕ) (t : Task) (s : Status) → (task_started_cb deliver now t s).1.finished ≡ s.finished
  unfolding task_started_cb
  task_started-finished now t s = elim (Result-cases (TaskView.to_dict now t)) [
    | inl (v, e) ↦ rw e (send_all-Same deliver s (task_started_message v) s (Same-refl s)).finished
    | inr (x, e) ↦ rw e refl
  ]

  job_status-finished :
      (now : ℕ) (j : Job) (s : Status) → (job_status_cb deliver now j s).1.finished ≡ s.finished
  unfolding job_status_cb
  job_status-finished now j s = (send_all-Same deliver s _ s (Same-refl s)).finished

  task_finished-finished :
      (now : ℕ) (t : Task) (s : Status) (before after : List Value)
      → s.finished ≡ last_ten before
      → (pre : List Value) × ((task_finished_cb deliver now t s).1.finished ≡ last_ten pre)
        × (pre ++ after
            ≡ before ++ elim (TaskView.to_dict now t) [ ok v ↦ v ∷ after | err e ↦ after ])
  unfolding task_finished_cb
  task_finished-finished now t s before after h = elim (Result-cases (TaskView.to_dict now t)) [
    | inl (v, e) ↦ rw e (
      before ++ v ∷ [],
      (send_all-Same deliver _ (task_finished_message t.id) _ (Same-refl _)).finished
          ∙ ap (λ xs. append_ten xs v) h
          ∙ append_ten-last_ten before v,
      append_assoc before (v ∷ []) after,
    )
    | inr (x, e) ↦ rw e (before, h, refl)
  ]

  steps-finished :
      (es : List Event) (s : Status) (before : List Value)
      → s.finished ≡ last_ten before
      → (steps deliver s es).finished ≡ last_ten (before ++ ended es)
  unfolding steps step ended
  steps-finished [] s before h = rw (append-nil before) h
  steps-finished (opens now tasks ∷ es) s before h =
      steps-finished es _ before (connect-finished now tasks s ∙ h)
  steps-finished (receives c r ∷ es) s before h =
      steps-finished es _ before (receive-finished (has c s.serving) c r s ∙ h)
  steps-finished (task_starts now t ∷ es) s before h =
      steps-finished es _ before (task_started-finished now t s ∙ h)
  steps-finished (job_updates now j ∷ es) s before h =
      steps-finished es _ before (job_status-finished now j s ∙ h)
  steps-finished (task_ends now t ∷ es) s before h =
      let (pre, shown, same) = task_finished-finished now t s before (ended es) h in
      steps-finished es _ pre shown ∙ ap last_ten same
  steps-finished (ticks t memory ∷ es) s before h =
      steps-finished es _ before (tick-finished t memory s ∙ h)

  -- Whatever connections open and end, whatever is sent to them and whichever of them raise: the page
  -- keeps the dicts of the last ten tasks that have ended and have one, in order.
  pub finished_lem :
      (es : List Event) → (steps deliver new_status es).finished ≡ last_ten (ended es)
  unfolding last_ten
  finished_lem es = steps-finished es new_status [] refl
