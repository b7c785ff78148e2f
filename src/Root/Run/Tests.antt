-- ===== src/Root/Run/Tests.antt =====
-- Two services and a task; when the daemon is told to stop, the first of what runs is done each time.
use rally_ci.Prelude.{ℕ, ◌+◌, ◌≡◌, ◌≢◌, refl, true, some, List, [], ◌∷◌, ◌++◌, map, All, arith}
use rally_ci.Python.{Result, ok}
use rally_ci.Root.{
  Root, find, without, has, delete_done, Event, starts, starts_task, ends, steps, fresh,
}
use rally_ci.Root.Sound.{count, owners_in}
use rally_ci.Root.Start.{Daemon, keys}
use rally_ci.Root.Run.{round, run}
use rally_ci.Root.Run.Drain.{Ending, lost}
use rally_ci.Root.Run.Shorter.{IsEnd}
use rally_ci.Root.Run.Down.{fresh_daemon, run_lem}

abbrev first_end : List (ℕ × ℕ) → List Event
first_end [] = []
first_end ((fut, obj) ∷ d) = ends fut ∷ []

abbrev one_by_one : ℕ → Root → List Event
one_by_one k r = first_end r.running_objects

-- The futures that are returned: the first of those that ran.
abbrev first_key : List (ℕ × ℕ) → List ℕ
first_key [] = []
first_key ((fut, obj) ∷ d) = fut ∷ []

abbrev returned : ℕ → Root → List ℕ
returned k r = first_key r.running_objects

first-ends :
    (d : List (ℕ × ℕ))
    → d ≢ []
    → All IsEnd (first_end d)
      × (fut : ℕ) × (obj : ℕ) × (find fut d ≡ some obj)
      × (has fut (first_key d) ≡ true)
unfolding find has
first-ends [] nonempty = absurd (nonempty refl)
first-ends ((fut, obj) ∷ d) nonempty = ((tt, tt), fut, obj, ground arith, ground arith)

one_by_one-Ending : Ending one_by_one returned
one_by_one-Ending k r nonempty = first-ends r.running_objects nonempty

abbrev well : ℕ → Result (Unit {0})
well prov = ok tt

abbrev services : List ℕ
services = 7 ∷ 8 ∷ []

abbrev before : List Event
before = starts_task 5 ∷ starts 6 ∷ ends 3 ∷ []

run-stopped :
    run one_by_one returned well
      (map ok services)
      (map ok (("virsh", 9) ∷ []))
      before
      5
      fresh_daemon
    ≡ some (
      ok tt,
      record {
        root = record {
          running_objects = [];
          tasks = [];
          running_cleanups = 6 ∷ 5 ∷ 8 ∷ 7 ∷ [];
          made = 4;
        };
        providers = ("virsh", 9) ∷ [];
        cancelled = 2 ∷ 1 ∷ 0 ∷ [];
        waited = 6 ∷ 5 ∷ 8 ∷ 7 ∷ [];
        stopped = true;
      },
    )
unfolding run steps find without
run-stopped = refl

-- All futures are done in the first round, and the callbacks of the first have been called.
abbrev all_returned : ℕ → Root → List ℕ
all_returned k r = keys r.running_objects

-- The objects whose callbacks come too late are never cleaned up.
run-lost :
    run one_by_one all_returned well (map ok services) [] [] 2 fresh_daemon
    ≡ some (
      ok tt,
      record {
        root = record { running_objects = []; tasks = []; running_cleanups = 8 ∷ []; made = 2 };
        providers = [];
        cancelled = 1 ∷ 0 ∷ [];
        waited = 8 ∷ [];
        stopped = true;
      },
    )
unfolding run steps find without delete_done has
run-lost = refl

run_lem_example :
    let at_stop = steps fresh (map starts services ++ before) in
    (d : Daemon) × (run one_by_one returned well
        (map ok services)
        (map ok (("virsh", 9) ∷ []))
        before
        5
        fresh_daemon
      ≡ some (ok tt, d))
    × (d.cancelled ≡ keys at_stop.running_objects)
    × (d.root.running_objects ≡ [])
    × ((obj : ℕ)
        → count obj d.waited + count obj (lost one_by_one returned 5 0 at_stop)
          ≡ count obj (7 ∷ 8 ∷ 5 ∷ 6 ∷ []))
    × (d.stopped ≡ true)
run_lem_example =
    run_lem well services (("virsh", 9) ∷ []) before one_by_one returned (λ prov. refl)
      one_by_one-Ending

-- Nothing is lost there.
lost-none : lost one_by_one returned 5 0 (steps fresh (map starts services ++ before)) ≡ []
unfolding lost steps find without delete_done has owners_in round
lost-none = refl
