-- ===== src/Config/Logging/Tests.antt =====
-- A section with two files, and one with a key that is no level.
use rally_ci.Prelude.{◌≡◌, refl, true, false, [], ◌∷◌}
use rally_ci.Prelude.Dict.{Dict, lookup, insert}
use rally_ci.Python.{value_error, ok, err}
use rally_ci.Python.Value.{str, obj, field, end}
use rally_ci.Config.Load.{Section, unnamed}
use rally_ci.Config.Logging.{stream_handler, file_handler, configure}

abbrev sections : Dict Section
sections =
    (
      "logging",
      unnamed (
          obj (
            field "debug" (str "/var/log/debug.log") (field "error" (str "/var/log/error.log") end))
          ∷ []),
    )
    ∷ []

configure-sections :
    configure true false sections
    ≡ ok (record {
      handlers =
          ("console", stream_handler "INFO")
          ∷ ("debug", file_handler "DEBUG" (str "/var/log/debug.log"))
          ∷ ("error", file_handler "ERROR" (str "/var/log/error.log"))
          ∷ [];
      root_handlers = "debug" ∷ "error" ∷ [];
    })
unfolding configure lookup insert
configure-sections = refl

configure-unknown :
    configure false true (("logging", unnamed (obj (field "trace" (str "t") end) ∷ [])) ∷ [])
    ≡ err value_error
unfolding configure lookup
configure-unknown = refl
