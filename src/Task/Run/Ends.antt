-- ===== src/Task/Run/Ends.antt =====
-- A task ends when all of its jobs are done.
use rally_ci.Prelude.{
  ℕ, zero, suc, ◌≤◌, ◌<◌, ◌≡◌, ◌≢◌, ◌⊎◌, true, Option, none, some, List, [], any, length,
}
use rally_ci.Python.{Result, ok}
use rally_ci.Root.{Root, has, without_all}
use rally_ci.Task.Run.{Waited, finished, interrupted, Outcome}

module _ (answer : ℕ → List ℕ → Option (List ℕ)) where
  -- An `asyncio.wait` on some futures is interrupted, or returns at least one of them.
  abbrev pub Answering : Type 0
  Answering =
      (k : ℕ) (fs : List ℕ)
      → fs ≢ []
      → (answer k fs ≡ none)
        ⊎ ((done : List ℕ) × (answer k fs ≡ some done) × (any (λ f. has f done) fs ≡ true))

  -- Only one round is interrupted.
  abbrev pub Once : Type 0
  Once = (i j : ℕ) (fs gs : List ℕ) → answer i fs ≡ none → answer j gs ≡ none → i ≡ j

  module _ (start : List ℕ) where
    abbrev rest_of : List ℕ → Option (List ℕ) → List ℕ
    rest_of fs none = fs
    rest_of fs (some done) = without_all done fs

    -- The futures that the `k`-th `asyncio.wait` is for: those of `start` that no earlier one returned.
    unfoldable pub asked : ℕ → List ℕ
    asked zero = start
    asked (suc k) = let fs = asked k in rest_of fs (answer k fs)

    -- One of the first `n` rounds has returned the future as done.
    abbrev pub WasDone : ℕ → ℕ → Type 0
    WasDone n f =
        (k : ℕ) × (done : List ℕ) × (k < n) × (answer k (asked k) ≡ some done) × (has f done ≡ true)

    -- How waiting from the round `k` on ends.
    Ended : ℕ → Option Waited → Type 0
    Ended k none = ⊥
    Ended k (some (finished j left)) =
        (left ≡ []) × (k ≤ j) × ((f : ℕ) → has f (asked k) ≡ true → WasDone j f)
    Ended k (some (interrupted j gs)) =
        (gs ≡ asked j)
        × (length gs ≤ length (asked k))
        × ((f : ℕ) → has f (asked k) ≡ true → WasDone j f ⊎ (has f gs ≡ true))
        × (i : ℕ) × (k ≤ i)
        × (j ≡ suc i)
        × (answer i (asked i) ≡ none)

    -- A run that ends without an exception and with no future left
    abbrev pub Good : Option (Result (Unit {0}) × Outcome) → Type 0
    Good o =
        (out : Outcome) × (o ≡ some (ok tt, out))
        × (out.left ≡ [])
        × ((f : ℕ) → has f start ≡ true → WasDone out.rounds f)
