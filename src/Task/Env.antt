-- ===== src/Task/Env.antt =====
-- `Task._get_env`: the environment that a stream's config takes out of an event.
pub mod Paths
use rally_ci.Prelude.{String, Option, none, some, List, [], ◌∷◌}
use rally_ci.Prelude.Dict.{Dict, insert}
use rally_ci.Python.{key_error, Exception, Result, ok, err, ◌>>=◌}
use rally_ci.Python.Value.{Value, index}
use rally_ci.Python.Text.{split}

-- `for key in v.split("."): value = value[key]`
unfoldable pub follow_path : Value → List String → Result Value
follow_path value [] = ok value
follow_path value (key ∷ keys) = do next ← index value key; follow_path next keys

-- `r[k] = value`, and `except KeyError: pass`
abbrev pub store : String → Dict Value → Result Value → Result (Dict Value)
store k r (ok value) = ok (insert k value r)
store k r (err key_error) = ok r
store k r (err e) = err e

unfoldable pub env_from : Value → Dict Value → Dict String → Result (Dict Value)
env_from event r [] = ok r
env_from event r ((k, path) ∷ env) = do
  r' ← store k r (follow_path event (split b'.' path))
  env_from event r' env

unfoldable pub get_env : Option (Dict String) → Value → Result (Dict Value)
unfolding env_from
get_env none event = ok []
get_env (some env) event = env_from event [] env
