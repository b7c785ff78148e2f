-- ===== src/Root/Run/Down.antt =====
-- The daemon stops when it is told to, and leaves nothing behind.
use rally_ci.Prelude.{
  ℕ, suc, ◌+◌, ◌≤◌, ◌≡◌, refl, ap, sym, ◌∙◌, String, true, false, some, List, [], ◌∷◌, ◌++◌, map,
  length, length-append, length-map, arith,
}
use rally_ci.Python.{Result, ok}
use rally_ci.Root.{
  Root, start_obj, start_task, Event, starts, starts_task, ends, step, steps, fresh,
}
use rally_ci.Root.Sound.{count, owners, started, IsBalanced, steps-IsBalanced}
use rally_ci.Root.Once.{fresh-IsBalanced}
use rally_ci.Root.Start.{Daemon, start_services, start_providers, keys}
use rally_ci.Root.Run.{shut_down, run}
use rally_ci.Root.Run.Drain.{Ending, lost, drain-ends}
use rally_ci.Root.Run.Shorter.{steps-append, length-done}

length-step :
    (r : Root) (e : Event) → length (step r e).running_objects ≤ suc (length r.running_objects)
unfolding step start_obj start_task
length-step r (starts obj) = omega arith
length-step r (starts_task t) = omega arith
length-step r (ends fut) = omega (arith, length-done fut r)

length-steps :
    (es : List Event) (r : Root)
    → length (steps r es).running_objects ≤ length r.running_objects + length es
unfolding steps
length-steps [] r = omega arith
length-steps (e ∷ es) r = omega (arith, length-steps es (step r e), length-step r e)

abbrev pub fresh_daemon : Daemon
fresh_daemon = record { root = fresh; providers = []; cancelled = []; waited = []; stopped = false }

start_services-root :
    (services : List ℕ) (d : Daemon)
    → start_services (map ok services) d
      ≡ (ok tt, record d { root = steps d.root (map starts services) })
unfolding start_services steps step
start_services-root [] d = refl
start_services-root (obj ∷ services) d =
    start_services-root services (record d { root = (start_obj obj d.root).1 })

start_providers-root :
    (start : ℕ → Result (Unit {0})) (welcome : (prov : ℕ) → start prov ≡ ok tt)
    (providers : List (String × ℕ)) (d : Daemon)
    → (d' : Daemon) × (start_providers start (map ok providers) d ≡ (ok tt, d'))
      × (d'.root ≡ d.root)
unfolding start_providers
start_providers-root start welcome [] d = (d, refl, refl)
start_providers-root start welcome ((name, prov) ∷ providers) d =
    rw (welcome prov) (start_providers-root start welcome providers _)

shut_down-ends :
    (happens : ℕ → Root → List Event) (returned : ℕ → Root → List ℕ)
    → Ending happens returned
    → (fuel : ℕ) (start : List ℕ) (d : Daemon) → length d.root.running_objects ≤ fuel
    → IsBalanced start [] d.root
    → (d' : Daemon) × (shut_down happens returned fuel d ≡ some (ok tt, d'))
      × (d'.root.running_objects ≡ [])
      × (d'.cancelled ≡ keys d.root.running_objects)
      × ((obj : ℕ)
          → count obj d'.waited + count obj (lost happens returned fuel 0 d.root) ≡ count obj start)
      × (d'.stopped ≡ true)
unfolding shut_down count
shut_down-ends happens returned ending fuel start d le b =
    let (root, found, empty, b') = drain-ends happens returned fuel 0 start [] d.root ending le b in
    let d' = record d {
      root = root;
      cancelled = keys d.root.running_objects;
      waited = root.running_cleanups;
      stopped = true;
    } in
    (
      d',
      rw found refl,
      empty,
      refl,
      λ obj. omega (arith, b'.balance obj, ap (λ r. count obj (owners r)) empty),
      refl,
    )

begun :
    (start : ℕ → Result (Unit {0})) (services : List ℕ) (providers : List (String × ℕ))
    (before : List Event) (happens : ℕ → Root → List Event) (returned : ℕ → Root → List ℕ)
    (fuel : ℕ)
    → ((prov : ℕ) → start prov ≡ ok tt)
    → (d : Daemon) × (run happens returned start
          (map ok services)
          (map ok providers)
          before
          fuel
          fresh_daemon
        ≡ shut_down happens returned fuel d)
      × (d.root ≡ steps fresh (map starts services ++ before))
unfolding run
begun start services providers before happens returned fuel welcome =
    let served = record fresh_daemon { root = steps fresh (map starts services) } in
    let (d, provided, same) = start_providers-root start welcome providers served in
    (
      record d { root = steps d.root before },
      rw (start_services-root services fresh_daemon, provided) refl,
      ap (λ r. steps r before) same ∙ sym (steps-append (map starts services) before fresh),
    )

started-services :
    (services : List ℕ) (before : List Event)
    → started (map starts services ++ before) ≡ services ++ started before
started-services [] before = refl
started-services (obj ∷ services) before =
    ap (λ objs. obj ∷ objs) (started-services services before)

-- If all services and providers start, then whatever happens before the daemon is told to stop, and as
-- long as nothing new starts afterwards and every `asyncio.wait` returns one of the futures that it was
-- called with: the daemon cancels what runs at that time and stops, in as many rounds as there are
-- services and earlier events at most, and nothing runs then. The cleanups that were waited for are
-- those of all the objects that were ever started, each as often as it was, except for the objects whose
-- futures an `asyncio.wait` returned before their own callbacks were called: these are lost.
pub run_lem :
    (start : ℕ → Result (Unit {0})) (services : List ℕ) (providers : List (String × ℕ))
    (before : List Event) (happens : ℕ → Root → List Event) (returned : ℕ → Root → List ℕ)
    → ((prov : ℕ) → start prov ≡ ok tt)
    → Ending happens returned
    → let fuel = length services + length before in
      let at_stop = steps fresh (map starts services ++ before) in
      (d : Daemon) × (run happens returned start
          (map ok services)
          (map ok providers)
          before
          fuel
          fresh_daemon
        ≡ some (ok tt, d))
      × (d.cancelled ≡ keys at_stop.running_objects)
      × (d.root.running_objects ≡ [])
      × ((obj : ℕ)
          → count obj d.waited + count obj (lost happens returned fuel 0 at_stop)
            ≡ count obj (services ++ started before))
      × (d.stopped ≡ true)
run_lem start services providers before happens returned welcome ending =
    let fuel = length services + length before in
    let (d, begins, at) = begun start services providers before happens returned fuel welcome in
    let few : length d.root.running_objects ≤ fuel = rw at (
      omega (
        arith,
        length-steps (map starts services ++ before) fresh,
        length-append (map starts services) before,
        length-map starts services,
      )) in
    let balanced : IsBalanced (services ++ started before) [] d.root =
      rw (at, ← started-services services before)
        (steps-IsBalanced (map starts services ++ before) [] [] fresh fresh-IsBalanced) in
    let (d', ends_, empty, cancelled, waited, stopped) =
      shut_down-ends happens returned ending fuel (services ++ started before) d few balanced in
    (
      d',
      begins ∙ ends_,
      cancelled ∙ ap (λ r. keys r.running_objects) at,
      empty,
      λ obj. omega (arith, waited obj, ap (λ r. count obj (lost happens returned fuel 0 r)) at),
      stopped,
    )
