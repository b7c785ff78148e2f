-- ===== src/Root/Once.antt =====
-- Every object that is started is cleaned up once, when its future is done.
use rally_ci.Prelude.{
  ℕ, suc, ◌+◌, ◌≤◌, ◌≡◌, refl, ap, ◌∙◌, Bool, true, false, ◌||◌, List, [], ◌∷◌, eqb, ltb, arith,
  if◌then◌else◌, Option-cases, inl, inr,
}
use rally_ci.Root.{
  Root, find, start_obj, start_task, schedule_cleanup, pop_task, done, Event, starts, starts_task,
  ends, step, steps, fresh,
}
use rally_ci.Root.Sound.{
  count_key, count, owners, started, count_key-without, count_key-missing, IsBalanced,
  steps-IsBalanced,
}

-- Whether a future runs after some events: it was made, as the `made`-th or later one, or ran before,
-- and it is not done since then. Futures are numbered in the order in which they are made.
unfoldable pub runs : ℕ → ℕ → Bool → List Event → Bool
runs fut made now [] = now
runs fut made now (starts obj ∷ es) = runs fut (suc made) (now || eqb made fut) es
runs fut made now (starts_task task ∷ es) = runs fut (suc made) (now || eqb made fut) es
runs fut made now (ends f ∷ es) = runs fut made (if eqb f fut then false else now) es

-- What holds after some events: a future is in the dict as long as it runs; the objects that run and
-- those whose cleanup was scheduled are those that were started, each as often; a task's future runs.
pub record IsSound (es : List Event) (r : Root) : Type 0 where
  pub alive : (fut : ℕ) → count_key fut r.running_objects ≡ (if runs fut 0 false es then 1 else 0)
  pub cleaned :
      (obj : ℕ)
      → count obj (owners r.running_objects) + count obj r.running_cleanups ≡ count obj (started es)
  pub listed : (fut : ℕ) → count_key fut r.tasks ≤ count_key fut r.running_objects

abbrev IsAlive : ℕ → Bool → Root → Type 0
IsAlive fut now r =
    (count_key fut r.running_objects ≡ (if now then 1 else 0))
    × (count_key fut r.running_objects ≤ (if ltb fut r.made then 1 else 0))

start_obj-IsAlive :
    (fut obj : ℕ) (now : Bool) (r : Root)
    → IsAlive fut now r
    → IsAlive fut (now || eqb r.made fut) (start_obj obj r).1
unfolding start_obj count_key
start_obj-IsAlive fut obj true r (e, le) = (ground (arith, e, le), ground (arith, e, le))
start_obj-IsAlive fut obj false r (e, le) = (ground (arith, e, le), ground (arith, e, le))

done-IsAlive :
    (fut f : ℕ) (now : Bool) (r : Root)
    → IsAlive fut now r
    → IsAlive fut (if eqb f fut then false else now) (done f r)
unfolding done schedule_cleanup pop_task
done-IsAlive fut f now r (e, le) = elim (Option-cases (find f r.running_objects)) [
  | inl missing ↦
      rw missing (ground (arith, e, le, count_key-missing f r.running_objects missing), le)
  | inr (obj, found) ↦ rw found (
    ground (arith, e, le, count_key-without fut f r.running_objects),
    ground (arith, e, le, count_key-without fut f r.running_objects),
  )
]

made-done : (f : ℕ) (r : Root) → (done f r).made ≡ r.made
unfolding done schedule_cleanup pop_task
made-done f r = elim (Option-cases (find f r.running_objects)) [
  | inl missing ↦ rw missing refl
  | inr (obj, found) ↦ rw found refl
]

steps-alive :
    (fut : ℕ) (now : Bool) (es : List Event) (r : Root)
    → IsAlive fut now r
    → count_key fut (steps r es).running_objects ≡ (if runs fut r.made now es then 1 else 0)
unfolding steps step runs start_task
steps-alive fut now [] r (e, le) = e
steps-alive fut now (starts obj ∷ es) r a =
    steps-alive fut (now || eqb r.made fut) es _ (start_obj-IsAlive fut obj now r a)
steps-alive fut now (starts_task task ∷ es) r a =
    steps-alive fut (now || eqb r.made fut) es _ (start_obj-IsAlive fut task now r a)
steps-alive fut now (ends f ∷ es) r a =
    let still = if eqb f fut then false else now in
    steps-alive fut still es (done f r) (done-IsAlive fut f now r a)
    ∙ ap (λ n. if runs fut n still es then 1 else 0) (made-done f r)

abbrev IsListed : Root → Type 0
IsListed r = (fut : ℕ) → count_key fut r.tasks ≤ count_key fut r.running_objects

done-IsListed : (f : ℕ) (r : Root) → IsListed r → IsListed (done f r)
unfolding done schedule_cleanup pop_task
done-IsListed f r l = elim (Option-cases (find f r.running_objects)) [
  | inl missing ↦ rw missing (λ fut. ground (arith, l fut, count_key-without fut f r.tasks))
  | inr (obj, found) ↦ rw found (λ fut.
      ground
        (arith, l fut, count_key-without fut f r.tasks, count_key-without fut f r.running_objects))
]

step-IsListed : (r : Root) (e : Event) → IsListed r → IsListed (step r e)
unfolding step start_obj start_task count_key
step-IsListed r (starts obj) l = λ fut. ground (arith, l fut)
step-IsListed r (starts_task task) l = λ fut. ground (arith, l fut)
step-IsListed r (ends f) l = done-IsListed f r l

steps-IsListed : (es : List Event) (r : Root) → IsListed r → IsListed (steps r es)
unfolding steps
steps-IsListed [] r l = l
steps-IsListed (e ∷ es) r l = steps-IsListed es (step r e) (step-IsListed r e l)

pub fresh-IsBalanced : IsBalanced [] [] fresh
unfolding count_key count
fresh-IsBalanced = record { single = λ fut. ground arith; balance = λ obj. refl }

-- Whatever starts and whatever futures are done, in any order: a future is among the running objects,
-- once, exactly if it was made and is not done since then; the objects that run and the objects whose
-- cleanup was scheduled are together those that were started, each as often as it was; and every task's
-- future is that of an object that runs.
pub steps_lem : (es : List Event) → IsSound es (steps fresh es)
unfolding count_key count
steps_lem es = record {
  alive = λ fut. steps-alive fut false es fresh (refl, ground arith);
  cleaned = λ obj. omega (arith, (steps-IsBalanced es [] [] fresh fresh-IsBalanced).balance obj);
  listed = steps-IsListed es fresh (λ fut. omega arith);
}
