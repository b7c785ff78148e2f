-- ===== src/Config/Logging.antt =====
-- `_configure_logging`: the handlers that `logging.config.dictConfig` is given. The formatter is the same
-- for all of them, and the constants of the dict are left out.
mod Tests
use rally_ci.Prelude.{
  String, ◌==◌, Bool, true, false, ◌||◌, Option, none, some, List, [], ◌∷◌, ◌++◌, if◌then◌else◌,
}
use rally_ci.Prelude.Dict.{Dict, lookup, insert}
use rally_ci.Python.{key_error, type_error, value_error, Result, ok, err, ◌>>=◌}
use rally_ci.Python.Value.{Value, Fields, obj, str, field, end}
use rally_ci.Config.Load.{Section, named, unnamed}

-- A handler that writes to the console, or to a file that is rotated.
pub data Handler : Type 0 where
  stream_handler : String → Handler
  file_handler : String → Value → Handler

-- `LOGGING["handlers"]` and `LOGGING["loggers"][""]["handlers"]`
pub record Logging : Type 0 where
  pub handlers : Dict Handler
  pub root_handlers : List String

-- The dict after `quiet` and `verbose`, of which the parser takes one at most.
abbrev pub console : Bool → Bool → Logging
console true verbose = record {
  handlers = ("console", stream_handler "INFO") ∷ [];
  root_handlers = [];
}
console false true = record {
  handlers = ("console", stream_handler "DEBUG") ∷ [];
  root_handlers = "console" ∷ [];
}
console false false = record {
  handlers = ("console", stream_handler "INFO") ∷ [];
  root_handlers = "console" ∷ [];
}

-- `key.upper()` for the keys of `default_log`, and `none` for any other.
abbrev pub level_of : String → Option String
level_of key =
    if key == "debug"
    then some "DEBUG"
    else if key == "error"
    then some "ERROR"
    else if key == "info"
    then some "INFO"
    else none

abbrev pub with_handler : String → Value → Option String → Logging → Result Logging
with_handler key filename none l = err value_error
with_handler key filename (some level) l = ok (record {
  handlers = insert key (file_handler level filename) l.handlers;
  root_handlers = l.root_handlers ++ key ∷ [];
})

-- The loop over the keys of the section
unfoldable pub add_handlers : Fields → Logging → Result Logging
unfolding insert
add_handlers end l = ok l
add_handlers (field key filename fs) l = do
  next ← with_handler key filename (level_of key) l
  add_handlers fs next

-- `if self.data.get("logging")`, and its first entry, which is a dict once it is loaded. A section of
-- named entries has no key 0.
unfoldable pub add_section : Option Section → Logging → Result Logging
unfolding add_handlers
add_section none l = ok l
add_section (some (named [])) l = ok l
add_section (some (named (_ ∷ _))) l = err key_error
add_section (some (unnamed [])) l = ok l
add_section (some (unnamed (obj fs ∷ _))) l = add_handlers fs l
add_section (some (unnamed (_ ∷ _))) l = err type_error

unfoldable pub configure : Bool → Bool → Dict Section → Result Logging
unfolding add_section
configure quiet verbose sections = add_section (lookup "logging" sections) (console quiet verbose)
