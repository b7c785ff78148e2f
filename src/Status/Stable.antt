-- ===== src/Status/Stable.antt =====
-- Properties that hold as long as the page lives.
use rally_ci.Prelude.{
  ℕ, ◌≡◌, ◌≢◌, refl, Bool, true, false, List, [], ◌∷◌, Bool-cases, inl, inr, ◌++◌, arith,
}
use rally_ci.Python.{Exception, disconnected_error, Result, ok, err}
use rally_ci.Python.Exec.Keeps.{Keeps-bind-lift}
use rally_ci.Python.Value.{Value}
use rally_ci.Task.Create.{Task}
use rally_ci.Task.View as TaskView
use rally_ci.Periodic.{Periodic, fire}
use rally_ci.Root.{has}
use rally_ci.Status.{
  Status, remove, leave, on_exception, unless_raised, connect, greet, open_connection, tick,
  send_all, send_statistics, statistics, task_started_cb, task_started_message, task_finished_cb,
  task_finished_message, job_status_cb,
}
use rally_ci.Status.Sent.{Same, Same-refl, greet-Same, send_all-Same}
use rally_ci.Status.Steps.{
  Received, message, close, raises, receive, Event, opens, receives, task_starts, job_updates,
  task_ends, ticks, step, steps,
}

-- The connections of two states are the same.
pub record Alike (s t : Status) : Type 0 where
  pub clients : t.clients ≡ s.clients
  pub serving : t.serving ≡ s.serving
  pub made : t.made ≡ s.made

-- `ws` has ended for `c`, which stays a client.
unfoldable pub abandon : ℕ → Status → Status
abandon c s = record s { serving = remove c s.serving }

-- A property of the connections that is kept by those that open and end.
pub record IsStable {ℓ} (P : Status → Type ℓ) : Type ℓ where
  pub alike : (s t : Status) → Alike s t → P s → P t
  pub opened : (s : Status) → P s → P (open_connection s)
  pub left : (c : ℕ) (s : Status) → has c s.serving ≡ true → P s → P (leave c s)
  pub abandoned : (c : ℕ) (s : Status) → has c s.serving ≡ true → P s → P (abandon c s)

pub on_exception-abandon :
    (c : ℕ) (e : Exception) (s : Status) → e ≢ disconnected_error → on_exception c e s ≡ abandon c s
unfolding on_exception abandon
on_exception-abandon c disconnected_error s other = absurd (other refl)
on_exception-abandon c _ s other = refl

has-append : (c : ℕ) (cs : List ℕ) → has c (cs ++ c ∷ []) ≡ true
unfolding has
has-append c [] = ground arith
has-append c (d ∷ ds) = ground (arith, has-append c ds)

module _ {ℓ} {P : Status → Type ℓ} (stable : IsStable P) where
  of_Same : (s t : Status) → Same s t → P s → P t
  of_Same s t same =
      stable.alike s t (record { clients = same.clients; serving = same.serving; made = same.made })

  after_exception :
      (c : ℕ) (e : Exception) (s : Status) → has c s.serving ≡ true → P s → P (on_exception c e s)
  unfolding on_exception abandon
  after_exception c disconnected_error s = stable.left c s
  after_exception c _ s = stable.abandoned c s

  after_receive :
      (c : ℕ) (r : Received) (s : Status) → has c s.serving ≡ true → P s → P (receive c r s)
  unfolding receive
  after_receive c message s h p = p
  after_receive c close s h p = stable.left c s h p
  after_receive c (raises e) s h p = after_exception c e s h p

  module _ (deliver : ℕ → ℕ → Value → Result (Unit {0})) where
    after_greet :
        (c : ℕ) (r : Result (Unit {0})) (s : Status)
        → has c s.serving ≡ true
        → P s
        → P (unless_raised deliver c (r, s))
    after_greet c (ok tt) s h p = p
    after_greet c (err e) s h p = after_exception c e s h p

    after_connect :
        (now : ℕ) (tasks : List Task) (s : Status) → P s → P (connect deliver now tasks s)
    unfolding connect open_connection
    after_connect now tasks s p =
        let (r, t) = greet deliver now tasks s.made (open_connection s) in
        let same = greet-Same deliver _ now tasks s.made _ (Same-refl (open_connection s)) in
        after_greet s.made r t (rw same.serving (has-append s.made s.serving))
          (of_Same (open_connection s) t same (stable.opened s p))

    after_send_all : (s : Status) (v : Value) → P s → P (send_all deliver v s).1
    after_send_all s v p = of_Same s _ (send_all-Same deliver s v s (Same-refl s)) p

    after_statistics :
        (memory : ℕ) (fired : Bool × Periodic) (s : Status)
        → P s
        → P (send_statistics deliver memory fired s)
    after_statistics memory (false, t) s p =
        stable.alike s _ (record { clients = refl; serving = refl; made = refl }) p
    after_statistics memory (true, t) s p =
        after_send_all _ (statistics memory)
          (stable.alike s _ (record { clients = refl; serving = refl; made = refl }) p)

    after_step : (e : Event) (s : Status) → P s → P (step deliver s e)
    unfolding step task_started_cb task_finished_cb job_status_cb tick
    after_step (opens now tasks) s p = after_connect now tasks s p
    after_step (receives c r) s p = elim (Bool-cases (has c s.serving)) [
      | inl h ↦ rw h (after_receive c r s h p)
      | inr h ↦ rw h p
    ]
    after_step (task_starts now t) s p =
        Keeps-bind-lift P (TaskView.to_dict now t) _
          (λ v s' p'. after_send_all s' (task_started_message v) p') s p
    after_step (job_updates now j) s p = after_send_all s _ p
    after_step (task_ends now t) s p =
        Keeps-bind-lift P (TaskView.to_dict now t) _
          (λ v s' p'.
            after_send_all _ (task_finished_message t.id)
              (stable.alike s' _ (record { clients = refl; serving = refl; made = refl }) p'))
          s p
    after_step (ticks t memory) s p = after_statistics memory (fire t s.stats_sender) s p

    pub after_steps : (es : List Event) (s : Status) → P s → P (steps deliver s es)
    unfolding steps
    after_steps [] s p = p
    after_steps (e ∷ es) s p = after_steps es (step deliver s e) (after_step e s p)
