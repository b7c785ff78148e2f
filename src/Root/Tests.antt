-- ===== src/Root/Tests.antt =====
-- A service and a task with one job: the job ends, then the task, then the service.
use rally_ci.Prelude.{◌≡◌, refl, List, [], ◌∷◌}
use rally_ci.Root.{starts, starts_task, ends, Event, steps, fresh, find, without}
use rally_ci.Root.Once.{IsSound, steps_lem}

abbrev events : List Event
events = starts 7 ∷ starts_task 8 ∷ starts 9 ∷ ends 2 ∷ ends 1 ∷ ends 0 ∷ []

steps-events :
    steps fresh events
    ≡ record { running_objects = []; tasks = []; running_cleanups = 9 ∷ 8 ∷ 7 ∷ []; made = 3 }
unfolding steps find without
steps-events = refl

steps_lem_example : IsSound events (steps fresh events)
steps_lem_example = steps_lem events
