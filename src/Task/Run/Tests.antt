-- ===== src/Task/Run/Tests.antt =====
-- A task with two jobs that is cancelled after the first of them is done.
use rally_ci.Prelude.{ℕ, ◌≡◌, refl, Option, none, some, List, [], ◌∷◌, eqb, if◌then◌else◌}
use rally_ci.Python.{ok}
use rally_ci.Root.{fresh, has, without_all}
use rally_ci.Task.Run.{run}

abbrev first : List ℕ → List ℕ
first [] = []
first (f ∷ fs) = f ∷ []

abbrev answer : ℕ → List ℕ → Option (List ℕ)
answer k fs = if eqb k 1 then none else some (first fs)

run-answer :
    run answer (7 ∷ 8 ∷ []) 2 fresh
    ≡ some (
      ok tt,
      record { rounds = 3; cancelled = 1 ∷ []; left = [] },
      record {
        running_objects = (1, 8) ∷ (0, 7) ∷ [];
        tasks = [];
        running_cleanups = [];
        made = 2;
      },
    )
unfolding run without_all has
run-answer = refl
