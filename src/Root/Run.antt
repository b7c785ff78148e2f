-- ===== src/Root/Run.antt =====
-- `Root.run`: the services and providers are started, and when the daemon is told to stop, it waits for
-- everything that runs, and for the cleanups.
pub mod Shorter
pub mod Drain
pub mod Down
mod Tests
use rally_ci.Prelude.{ℕ, zero, suc, String, Bool, true, false, Option, none, some, List, [], ◌∷◌}
use rally_ci.Python.{Result, ok, err}
use rally_ci.Python.Wait.{Wait, exec, ◌>>=◌, ◌>>◌}
use rally_ci.Python.Exec.{modify}
use rally_ci.Root.{Root, Event, steps, delete_done}
use rally_ci.Root.Start.{Daemon, start_services, start_providers, cancel_all}

-- `wait_fs` on the dict of the running objects itself, from the state `r` on at the k-th `asyncio.wait`:
-- `happens k r` is what happens while it waits, and `returned k r` are the futures that it returns. One
-- that is done, but whose callbacks have not been called yet, is still in the dict, and is deleted.
module _ (happens : ℕ → Root → List Event) (returned : ℕ → Root → List ℕ) where
  unfoldable pub round : ℕ → Root → Root
  unfolding steps delete_done
  round k r =
      let after = steps r (happens k r) in
      record after { running_objects = delete_done (returned k r) after.running_objects }

  drain_on : List (ℕ × ℕ) → (Root → Option Root) → Root → Option Root
  drain_on [] again r = some r
  drain_on (_ ∷ _) again r = again r

  unfoldable pub drain : ℕ → ℕ → Root → Option Root
  unfolding drain_on round
  drain zero k r = drain_on r.running_objects (λ _. none) r
  drain (suc fuel) k r = drain_on r.running_objects (λ r'. drain fuel (suc k) (round k r')) r

  with_root : Daemon → Option Root → Option (Result (Unit {0}) × Daemon)
  with_root d none = none
  with_root d (some r) = some (ok tt, record d { root = r })

  -- From the end of the wait for `stop_event`. All cleanups are waited for, and the loop is stopped.
  unfoldable pub shut_down : ℕ → Wait Daemon (Unit {0})
  unfolding with_root drain cancel_all
  shut_down fuel = do
    exec cancel_all
    (λ d. with_root d (drain fuel 0 d.root))
    exec (modify (λ d. record d { waited = d.root.running_cleanups; stopped = true }))

  -- `before` is what happens until the daemon is told to stop.
  unfoldable pub run :
      (ℕ → Result (Unit {0}))
      → List (Result ℕ)
      → List (Result (String × ℕ))
      → List Event
      → ℕ
      → Wait Daemon (Unit {0})
  unfolding start_services start_providers shut_down
  run start services providers before fuel = do
    exec (start_services services)
    exec (start_providers start providers)
    exec (modify (λ d. record d { root = steps d.root before }))
    shut_down fuel
