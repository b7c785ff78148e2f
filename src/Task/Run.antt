-- ===== src/Task/Run.antt =====
-- `Task.run`: the jobs are started, and the task waits for them, also when it is cancelled meanwhile.
pub mod Ends
mod Tests
use rally_ci.Prelude.{ℕ, zero, suc, Option, none, some, List, [], ◌∷◌}
use rally_ci.Python.{cancelled_error, Result, ok, err}
use rally_ci.Python.Exec.{Exec, pure, ◌>>=◌}
use rally_ci.Root.{Root, start_obj, without_all}

-- `for job in self.jobs_list: fs[self.root.start_obj(job)] = job`: the keys of `fs`
unfoldable pub start_jobs : List ℕ → Exec Root (List ℕ)
unfolding start_obj
start_jobs [] = pure []
start_jobs (job ∷ jobs) = do fut ← start_obj job; fs ← start_jobs jobs; pure (fut ∷ fs)

-- How `wait_fs` comes back, by itself or with CancelledError: the number of the next round, and the futures
-- that are left in its dict.
pub data Waited : Type 0 where
  finished : ℕ → List ℕ → Waited
  interrupted : ℕ → List ℕ → Waited

-- The futures that were cancelled, those that were left at the end, and the number of rounds.
pub record Outcome : Type 0 where
  pub rounds : ℕ
  pub cancelled : List ℕ
  pub left : List ℕ

-- `answer k fs` is what the k-th `asyncio.wait` on `fs` comes back with: the futures that are done, or
-- `none` if the task is cancelled while it waits.
module _ (answer : ℕ → List ℕ → Option (List ℕ)) where
  after_round : ℕ → List ℕ → Option (List ℕ) → (List ℕ → Option Waited) → Option Waited
  after_round k fs none again = some (interrupted k fs)
  after_round k fs (some done) again = again (without_all done fs)

  unfoldable pub wait_fs : ℕ → ℕ → List ℕ → Option Waited
  unfolding after_round without_all
  wait_fs fuel k [] = some (finished k [])
  wait_fs zero k (f ∷ fs) = none
  wait_fs (suc fuel) k (f ∷ fs) =
      after_round (suc k) (f ∷ fs) (answer k (f ∷ fs)) (wait_fs fuel (suc k))

  -- The second wait, whose CancelledError is not caught
  after_second : List ℕ → Option Waited → Option (Result (Unit {0}) × Outcome)
  after_second cancelled none = none
  after_second cancelled (some (finished k fs)) =
      some (ok tt, record { rounds = k; cancelled = cancelled; left = fs })
  after_second cancelled (some (interrupted k fs)) =
      some (err cancelled_error, record { rounds = k; cancelled = cancelled; left = fs })

  -- `except asyncio.CancelledError: for fut in fs: fut.cancel()`, and the second wait. The code leaves it
  -- out where `fs` is empty, for which `wait_fs` does nothing.
  after_first : ℕ → Option Waited → Option (Result (Unit {0}) × Outcome)
  after_first fuel none = none
  after_first fuel (some (finished k fs)) = after_second [] (wait_fs fuel k fs)
  after_first fuel (some (interrupted k fs)) = after_second fs (wait_fs fuel k fs)

  unfoldable pub wait_twice : ℕ → List ℕ → Option (Result (Unit {0}) × Outcome)
  unfolding after_first after_second wait_fs
  wait_twice fuel fs = after_first fuel (wait_fs fuel 0 fs)

  with_root :
      Root → Option (Result (Unit {0}) × Outcome) → Option (Result (Unit {0}) × Outcome × Root)
  with_root r none = none
  with_root r (some (result, outcome)) = some (result, outcome, r)

  run_from : ℕ → Result (List ℕ) × Root → Option (Result (Unit {0}) × Outcome × Root)
  run_from fuel (ok fs, r) = with_root r (wait_twice fuel fs)
  run_from fuel (err e, r) = some (err e, record { rounds = 0; cancelled = []; left = [] }, r)

  unfoldable pub run : List ℕ → ℕ → Root → Option (Result (Unit {0}) × Outcome × Root)
  unfolding run_from with_root start_jobs wait_twice
  run jobs fuel r = run_from fuel (start_jobs jobs r)
