-- ===== src/Config/Modules.antt =====
-- `_get_module`, `iter_instances` and `iter_providers` of `Config`.
-- `importlib.import_module` is a parameter: the module that a name stands for, or what it raises.
pub mod Once
use rally_ci.Prelude.{String, Option, none, some, List, [], ◌∷◌, ◌++◌}
use rally_ci.Prelude.Dict.{Dict, lookup, insert}
use rally_ci.Python.{attribute_error, type_error, Result, ok, err}
use rally_ci.Python.Exec.{Exec, pure, raise, lift, ◌>>=◌, ◌>>◌}
use rally_ci.Python.Value.{Value, str, index}
use rally_ci.Config.Load.{Name, Section, named, unnamed}

-- `modules` is `self._modules`; `imports` logs the calls of `import_module`, the first one first.
pub record Cache (Module : Type 0) : Type 0 where
  pub modules : Dict Module
  pub imports : List String

-- `cfg["module"]` as the argument of `_get_module`
abbrev module_name : Value → Result String
module_name (str s) = ok s
module_name _ = err type_error

-- `self.data.get(section, {}).values()`
abbrev values_of : Option Section → Result (List (Name × Value))
values_of none = ok []
values_of (some (named d)) = ok d
values_of (some (unnamed l)) = err attribute_error

module _ {Module : Type 0} (import_module : String → Result Module) where
  abbrev remember : String → Result Module → Exec (Cache Module) Module
  remember name (ok m) c = (ok m, record c { modules = insert name m c.modules })
  remember name (err e) c = (err e, c)

  -- `import_module` runs only if the name is not in the cache.
  abbrev import_missing : String → Option Module → Exec (Cache Module) Module
  import_missing name (some m) c = (ok m, c)
  import_missing name none c =
      remember name (import_module name) (record c { imports = c.imports ++ name ∷ [] })

  unfoldable pub get_module : String → Exec (Cache Module) Module
  get_module name c = import_missing name (lookup name c.modules) c

  unfoldable pub module_of : Value → Exec (Cache Module) Module
  unfolding get_module
  module_of cfg = do raw ← lift (index cfg "module"); name ← lift (module_name raw); get_module name

  -- `get_instance`: the module whose `Class` is called with the config.
  unfoldable pub get_instance : Value → Exec (Cache Module) Module
  unfolding module_of
  get_instance cfg = module_of cfg

  -- What the generator yields when it is run to its end: the module and the config of each object.
  unfoldable pub instances_from : List (Name × Value) → Exec (Cache Module) (List (Module × Value))
  unfolding module_of
  instances_from [] = pure []
  instances_from ((_, cfg) ∷ rest) = do
    m ← module_of cfg
    built ← instances_from rest
    pure ((m, cfg) ∷ built)

  unfoldable pub iter_instances :
      Dict Section → String → Exec (Cache Module) (List (Module × Value))
  unfolding instances_from
  iter_instances sections section = do
    entries ← lift (values_of (lookup section sections))
    instances_from entries

  -- `iter_providers`: the module whose `Provider` is called, and the config.
  unfoldable pub iter_providers : Dict Section → Exec (Cache Module) (List (Module × Value))
  unfolding instances_from
  iter_providers sections = do
    entries ← lift (values_of (lookup "provider" sections))
    instances_from entries
