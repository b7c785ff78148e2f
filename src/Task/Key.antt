-- ===== src/Task/Key.antt =====
-- `get_key` of rallyci/task.py: what tells one patch set from another.
use rally_ci.Prelude.{String}
use rally_ci.Python.{Result, ok, err, ◌>>=◌}
use rally_ci.Python.Value.{Value, index, plus}

abbrev or_empty : Result String → String
or_empty (ok s) = s
or_empty (err _) = ""

unfoldable pub get_key : Value → String
get_key event = or_empty (do
  change ← index event "change"
  project ← index change "project"
  patch_set ← index event "patchSet"
  ref ← index patch_set "ref"
  plus project ref)
