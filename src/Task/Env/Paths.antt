-- ===== src/Task/Env/Paths.antt =====
-- What `get_env` finds, against the values that the paths lead to.
use rally_ci.Prelude.{String, ◌≡◌, Option, none, some, [], ◌∷◌}
use rally_ci.Prelude.Dict.{Dict, lookup}
use rally_ci.Python.{Result, ok, err}
use rally_ci.Python.Value.{Value}
use rally_ci.Python.Text.{split}
use rally_ci.Task.Env.{follow_path}

abbrev found : Result Value → Option Value
found (ok v) = some v
found (err _) = none

-- The value at a path of an event, `none` if a key is missing.
abbrev pub at_path : Value → String → Option Value
at_path event path = found (follow_path event (split b'.' path))

abbrev pub first {ℓ} : {A : Type ℓ} → Option A → Option A → Option A
first (some v) o = some v
first none o = o

abbrev if_some {ℓ κ} : {A : Type ℓ} {B : Type κ} → Option A → (A → Option B) → Option B
if_some none f = none
if_some (some a) f = f a

-- A config is a dict: no variable stands there twice.
abbrev pub UniqueKeys : Dict String → Type 0
UniqueKeys [] = Unit {0}
UniqueKeys ((k, _) ∷ env) = (lookup k env ≡ none) × UniqueKeys env
