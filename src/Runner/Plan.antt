-- ===== src/Runner/Plan.antt =====
-- The order in which a runner plays the scripts, and when it stops.
use rally_ci.Prelude.{ℕ, String, ◌≡◌, refl, Option, none, some, List, [], ◌∷◌, ◌++◌, sym, ◌∙◌}
use mathlib.Core.Path.{ap, ap₂, fun_ext}
use rally_ci.Python.{Result, ok, err}
use rally_ci.Python.Exec.{Exec, follow, pure, ◌>>=◌}
use rally_ci.Config.Data.{Data}
use rally_ci.Job.{Job, Run}
use rally_ci.Runner.{Machines, play_script, play_vm, play_all}

-- The scripts of one machine after those of another.
abbrev pub plan_vm : String → List String → List (String × String)
plan_vm vm [] = []
plan_vm vm (name ∷ names) = (vm, name) ∷ plan_vm vm names

abbrev pub plan : List (String × List String) → List (String × String)
plan [] = []
plan ((vm, names) ∷ rest) = plan_vm vm names ++ plan rest

module _ (notify : Job → Result (Unit {0})) (config : Data) (run_script : Machines) where
  unfoldable pub play_list : List (String × String) → Exec Run (Option ℕ)
  play_list [] = pure none
  play_list ((vm, name) ∷ rest) = do
    returned ← play_script notify config run_script vm name
    elim returned [ some n ↦ pure (some n) | none ↦ play_list rest ]

  abbrev pub or_go_on : Exec Run (Option ℕ) → Option ℕ → Exec Run (Option ℕ)
  or_go_on k (some n) = pure (some n)
  or_go_on k none = k

  resume-append :
      (l m : List (String × String))
      → ((r : Run) → play_list (l ++ m) r ≡ (play_list l >>= or_go_on (play_list m)) r)
      → (result : Result (Option ℕ)) (r : Run)
      → follow result (or_go_on (play_list (l ++ m))) r ≡ (
          let (x, s) = follow result (or_go_on (play_list l)) r in
          follow x (or_go_on (play_list m)) s)
  resume-append l m ih (err e) r = refl
  resume-append l m ih (ok (some n)) r = refl
  resume-append l m ih (ok none) r = ih r

  play_list-append :
      (l m : List (String × String)) (r : Run)
      → play_list (l ++ m) r ≡ (play_list l >>= or_go_on (play_list m)) r
  unfolding play_list
  play_list-append [] m r = refl
  play_list-append ((vm, name) ∷ l) m r =
      let (result, r') = play_script notify config run_script vm name r in
      resume-append l m (play_list-append l m) result r'

  play_vm-eq-play_list :
      (vm : String) (names : List String)
      → play_vm notify config run_script vm names ≡ play_list (plan_vm vm names)
  unfolding play_vm play_list
  play_vm-eq-play_list vm [] = refl
  play_vm-eq-play_list vm (name ∷ names) =
      ap (λ k. play_script notify config run_script vm name >>= or_go_on k)
        (play_vm-eq-play_list vm names)

  -- The nested loops play the scripts of the plan one after the other.
  pub play_all-eq-play_list :
      (pairs : List (String × List String))
      → play_all notify config run_script pairs ≡ play_list (plan pairs)
  unfolding play_all play_list
  play_all-eq-play_list [] = refl
  play_all-eq-play_list ((vm, names) ∷ rest) =
      ap₂ (λ m k. m >>= or_go_on k) (play_vm-eq-play_list vm names) (play_all-eq-play_list rest)
      ∙ sym (fun_ext (play_list-append (plan_vm vm names) (plan rest)))
