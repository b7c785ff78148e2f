-- ===== src/Periodic/Tests.antt =====
-- A task that is started twice, as two connections to the status page do, and whose timers all fire.
use rally_ci.Prelude.{◌+◌, ◌≡◌, ◌≤◌, refl, false, List, [], ◌∷◌, length}
use rally_ci.Periodic.{Event, starts, stops, fires, new_periodic, find, drop, stop, steps}
use rally_ci.Periodic.Calls.{start_count, stop_count, steps-calls}

abbrev events : List Event
events = starts ∷ fires 0 ∷ starts ∷ fires 1 ∷ fires 2 ∷ fires 1 ∷ fires 3 ∷ fires 4 ∷ []

calls-events : (steps new_periodic events).calls ≡ 2
unfolding steps find drop
calls-events = refl

-- Only the timer that was made last can be stopped.
calls-stopped :
    (steps new_periodic (starts ∷ starts ∷ stops ∷ fires 0 ∷ fires 1 ∷ fires 2 ∷ [])).calls ≡ 1
unfolding steps stop find drop
calls-stopped = refl

steps-calls_example :
    let p = steps new_periodic events in
    (p.active ≡ false)
    × (p.calls ≤ start_count events)
    × (stop_count events ≡ 0 → p.calls + length p.pending ≡ start_count events)
steps-calls_example = steps-calls events
