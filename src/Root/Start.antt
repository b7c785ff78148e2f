-- ===== src/Root/Start.antt =====
-- The daemon, and the beginning of `Root.run`: `start_services` and the start of the providers.
use rally_ci.Prelude.{ℕ, String, Bool, List, [], ◌∷◌, map}
use rally_ci.Prelude.Dict.{Dict, insert}
use rally_ci.Python.{Result}
use rally_ci.Python.Exec.{Exec, pure, lift, modify, ◌>>=◌, ◌>>◌}
use rally_ci.Root.{Root, start_obj}

-- `cancelled` are the futures that were cancelled, `waited` the cleanups that were waited for; `stopped`
-- is whether the loop was stopped.
pub record Daemon : Type 0 where
  pub root : Root
  pub providers : Dict ℕ
  pub cancelled : List ℕ
  pub waited : List ℕ
  pub stopped : Bool

abbrev pub on_root : {A : Type 0} → Exec Root A → Exec Daemon A
on_root m d = let (r, root) = m d.root in (r, record d { root = root })

-- The instances come from a generator: one that cannot be made ends the loop when its turn comes.
unfoldable pub start_services : List (Result ℕ) → Exec Daemon (Unit {0})
unfolding start_obj
start_services [] = pure tt
start_services (instance_ ∷ instances) = do
  service ← lift instance_
  on_root (start_obj service)
  start_services instances

-- `start prov` is what the provider's own `start` does.
module _ (start : ℕ → Result (Unit {0})) where
  unfoldable pub start_providers : List (Result (String × ℕ)) → Exec Daemon (Unit {0})
  unfolding insert
  start_providers [] = pure tt
  start_providers (instance_ ∷ instances) = do
    (name, prov) ← lift instance_
    modify (λ d. record d { providers = insert name prov d.providers })
    lift (start prov)
    start_providers instances

abbrev pub keys : List (ℕ × ℕ) → List ℕ
keys d = map (λ entry. entry.0) d

-- `for obj in self._running_objects: obj.cancel()`
unfoldable pub cancel_all : Exec Daemon (Unit {0})
cancel_all = modify (λ d. record d { cancelled = keys d.root.running_objects })
