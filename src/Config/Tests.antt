-- ===== src/Config/Tests.antt =====
-- Sample configuration files.
use rally_ci.Prelude.{◌≤◌, String, ◌≡◌, refl, List, [], ◌∷◌, ◌==◌, if◌then◌else◌}
use rally_ci.Prelude.Dict.{Dict, lookup, insert}
use rally_ci.Python.{
  attribute_error, type_error, value_error, index_error, os_error, Result, ok, err,
}
use rally_ci.Python.Value.{Value, null, num, str, obj, end, field}
use rally_ci.Config.Load.{Section, text, named, unnamed, Item, find, load}
use rally_ci.Config.Load.Faithful.{configured, declared, configured-load}
use rally_ci.Config.Load.Unique.{declarations, declarations-load}
use rally_ci.Config.Modules.{Cache, iter_instances}
use rally_ci.Config.Modules.Once.{IsFaithful, iter_instances-IsFaithful}

abbrev job : String → Value
job name = obj (field "name" (str name) (field "timeout" (num 30) end))

abbrev logs : Value
logs = obj (field "debug" (str "/tmp/debug.log") end)

abbrev sample : List Item
sample = (("job", job "tox") ∷ []) ∷ (("logging", logs) ∷ []) ∷ (("job", job "dsvm") ∷ []) ∷ []

program : Unit {0}
unfolding load find lookup insert
program = tt

load-sample :
    load sample
    ≡ ok (
        ("job", named ((text "tox", job "tox") ∷ (text "dsvm", job "dsvm") ∷ []))
        ∷ ("logging", unnamed (logs ∷ []))
        ∷ [])
unfolding program
load-sample = refl

load_errors :
    (load ((("job", job "tox") ∷ []) ∷ (("job", job "tox") ∷ []) ∷ []) ≡ err value_error)
    × (load ((("job", logs) ∷ []) ∷ (("job", job "tox") ∷ []) ∷ []) ≡ err type_error)
    × (load ((("job", job "tox") ∷ []) ∷ (("job", logs) ∷ []) ∷ []) ≡ err attribute_error)
    × (load ((("job", job "tox") ∷ ("env", logs) ∷ []) ∷ []) ≡ err value_error)
    × (load ((("job", null) ∷ []) ∷ []) ≡ err attribute_error)
    × (load ([] ∷ []) ≡ err index_error)
unfolding program
load_errors = (refl, refl, refl, refl, refl, refl)

configured-load_example :
    configured "job" (text "dsvm") (
      ("job", named ((text "tox", job "tox") ∷ (text "dsvm", job "dsvm") ∷ []))
      ∷ ("logging", unnamed (logs ∷ []))
      ∷ [])
    ≡ declared "job" (text "dsvm") sample
configured-load_example = configured-load sample _ "job" (text "dsvm") load-sample

declarations-load_example : declarations "job" (text "tox") sample ≤ 1
declarations-load_example = declarations-load sample _ "job" (text "tox") load-sample

abbrev import_sample : String → Result String
import_sample name = if name == "missing" then err os_error else ok name

abbrev service : String → Value
service name = obj (field "module" (str name) end)

abbrev services : Dict Section
services =
    (
      "service",
      named (
          (text "status", service "rallyci.services.status")
          ∷ (text "again", service "rallyci.services.status")
          ∷ []),
    )
    ∷ []

abbrev empty_cache : Cache String
empty_cache = record { modules = []; imports = [] }

iter_instances-services : iter_instances import_sample services "service" empty_cache ≡ (
  ok (
      ("rallyci.services.status", service "rallyci.services.status")
      ∷ ("rallyci.services.status", service "rallyci.services.status")
      ∷ []),
  record {
    modules = ("rallyci.services.status", "rallyci.services.status") ∷ [];
    imports = "rallyci.services.status" ∷ [];
  },
)
unfolding iter_instances lookup insert
iter_instances-services = refl

empty_cache-IsFaithful : IsFaithful import_sample empty_cache
unfolding lookup
empty_cache-IsFaithful = record { held = λ k m h. cc; once = λ k m h. cc; never = λ k h m i. refl }

iter_instances-IsFaithful_example :
    IsFaithful import_sample (iter_instances import_sample services "service" empty_cache).1
iter_instances-IsFaithful_example =
    iter_instances-IsFaithful import_sample services "service" empty_cache empty_cache-IsFaithful
