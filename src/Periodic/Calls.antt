-- ===== src/Periodic/Calls.antt =====
-- How often a periodic task calls its method.
use rally_ci.Prelude.{
  ℕ, suc, ◌+◌, ◌≤◌, ◌≡◌, refl, false, Option, none, some, List, [], ◌∷◌, length, length-append,
  arith, Option-cases, inl, inr, ◌∙◌,
}
use rally_ci.Periodic.{
  Callback, method, run_again, Periodic, new_periodic, find, drop, call_later, start, cancel, stop,
  call, fire, Event, starts, stops, fires, step, steps,
}

unfoldable pub start_count : List Event → ℕ
start_count [] = 0
start_count (starts ∷ es) = suc (start_count es)
start_count (_ ∷ es) = start_count es

unfoldable pub stop_count : List Event → ℕ
stop_count [] = 0
stop_count (stops ∷ es) = suc (stop_count es)
stop_count (_ ∷ es) = stop_count es

-- The calls that were made or may still come.
abbrev pub credit : Periodic → ℕ
credit p = p.calls + length p.pending

length-drop : (t : ℕ) (ts : List (ℕ × Callback)) → length (drop t ts) ≤ length ts
unfolding drop
length-drop t [] = omega arith
length-drop t ((u, cb) ∷ ts) = ground (arith, length-drop t ts)

length-drop-found :
    (t : ℕ) (cb : Callback) (ts : List (ℕ × Callback))
    → find t ts ≡ some cb
    → suc (length (drop t ts)) ≡ length ts
unfolding drop find
length-drop-found t cb [] h = cc
length-drop-found t cb ((u, c) ∷ ts) h = ground (arith, h, length-drop-found t cb ts)

drop-missing : (t : ℕ) (ts : List (ℕ × Callback)) → find t ts ≡ none → drop t ts ≡ ts
unfolding drop find
drop-missing t [] h = refl
drop-missing t ((u, c) ∷ ts) h = ground (arith, h, drop-missing t ts)

credit-call_later : (cb : Callback) (p : Periodic) → credit (call_later cb p) ≡ suc (credit p)
credit-call_later cb p = omega (arith, length-append p.pending ((p.made, cb) ∷ []))

credit-cancel : (o : Option ℕ) (p : Periodic) → credit (cancel o p) ≤ credit p
unfolding drop
credit-cancel none p = omega arith
credit-cancel (some t) p = omega (arith, length-drop t p.pending)

credit-call : (cb : Callback) (p : Periodic) → credit (call (some cb) p).1 ≡ suc (credit p)
credit-call method p = omega arith
credit-call run_again p = credit-call_later method p

-- A timer that fires is no longer pending, and the call that it stood for is made or is pending.
credit-fire : (t : ℕ) (p : Periodic) → credit (fire t p).1 ≡ credit p
unfolding fire
credit-fire t p = elim (Option-cases (find t p.pending)) [
  | inl e ↦ rw (e, drop-missing t p.pending e)
  | inr (cb, e) ↦ rw e (
      omega (
        arith,
        credit-call cb (record p { pending = drop t p.pending }),
        length-drop-found t cb p.pending e,
      ))
]

active-call : (o : Option Callback) (p : Periodic) → (call o p).1.active ≡ p.active
active-call none p = refl
active-call (some method) p = refl
active-call (some run_again) p = refl

active-cancel : (o : Option ℕ) (p : Periodic) → (cancel o p).active ≡ p.active
active-cancel none p = refl
active-cancel (some t) p = refl

active-step : (p : Periodic) (e : Event) → (step p e).active ≡ p.active
unfolding step stop fire
active-step p starts = refl
active-step p stops = active-cancel p.handler p
active-step p (fires t) = active-call (find t p.pending) (record p { pending = drop t p.pending })

active-steps : (p : Periodic) (es : List Event) → (steps p es).active ≡ p.active
unfolding steps
active-steps p [] = refl
active-steps p (e ∷ es) = active-steps (step p e) es ∙ active-step p e

credit-steps :
    (p : Periodic) (es : List Event)
    → (credit (steps p es) ≤ credit p + start_count es)
      × (stop_count es ≡ 0 → credit (steps p es) ≡ credit p + start_count es)
unfolding steps step stop start_count stop_count
credit-steps p [] = (omega arith, λ _. omega arith)
credit-steps p (starts ∷ es) =
    let (most, exact) = credit-steps (start p) es in
    let one = credit-call_later run_again p in
    (omega (arith, most, one), λ h. omega (arith, exact h, one))
credit-steps p (stops ∷ es) = (
  omega (arith, (credit-steps (stop p) es).0, credit-cancel p.handler p),
  λ h. absurd (omega (arith, h)),
)
credit-steps p (fires t ∷ es) =
    let (most, exact) = credit-steps (fire t p).1 es in
    let same = credit-fire t p in (omega (arith, most, same), λ h. omega (arith, exact h, same))

-- Whatever starts and stops a new task and whichever of its timers fire, in any order: `active` stays
-- false, the method has been called at most as often as the task was started, and if the task was never
-- stopped, then the calls and the pending timers together are as many as the starts.
pub steps-calls :
    (es : List Event)
    → let p = steps new_periodic es in
      (p.active ≡ false)
      × (p.calls ≤ start_count es)
      × (stop_count es ≡ 0 → p.calls + length p.pending ≡ start_count es)
steps-calls es =
    let (most, exact) = credit-steps new_periodic es in
    (active-steps new_periodic es, omega (arith, most), λ h. omega (arith, exact h))
