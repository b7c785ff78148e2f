-- ===== src/Virsh/Build.antt =====
-- `Host.boot_image` and `Host.build_image`. One image is built at a time, under its lock in
-- `image_locks`; an image that is its own ancestor would wait for its own lock for ever, and here runs
-- out of fuel.
pub mod Ends
pub mod Keeps
use rally_ci.Prelude.{
  ℕ, zero, suc, ◌==◌, String, Bool, true, false, Option, none, some, List, [], ◌∷◌, ◌++◌,
  if◌then◌else◌,
}
use rally_ci.Prelude.Dict.{Dict, lookup}
use rally_ci.Python.{Result, ok, err}
use rally_ci.Python.Exec.{Exec, pure, lift}
use rally_ci.Python.Wait.{Wait, exec, on_error, ◌>>=◌, ◌>>◌}
use rally_ci.Config.Data.{Script}
use rally_ci.Job.{or_else, or_key_error}
use rally_ci.Virsh.Config.{ImageConfig}
use rally_ci.Virsh.Remote.{Reply, Host, unreachable}
use rally_ci.Virsh.Storage.{Storage}
use rally_ci.Virsh.Machine.{Vm, new_vm, add_disks, add_net, boot}
use rally_ci.Virsh.Machine.Network.{destroy}
use rally_ci.Virsh.Machine.Shutdown.{sleep, shutdown}
use rally_ci.Virsh.Script.{run_script}

-- `if s:` for what `get` returns
abbrev pub given : Option String → Option String
given none = none
given (some s) = if s == "" then none else some s

-- `yield from asyncio.sleep(n)`
abbrev pub pause : ℕ → Exec Host (Unit {0})
pause n h = (ok tt, sleep n h)

module _ (answer : List String → String → Reply) (elapsed : List String → ℕ)
    (guest : String → String → Reply) (storage : Storage) (images : Dict ImageConfig)
    (scripts : Dict Script) where
  unfoldable pub boot_image : String → Wait Host Vm
  unfolding new_vm add_net boot
  boot_image name = do
    conf ← exec (lift (or_key_error (lookup name images)))
    vm ← exec (new_vm conf.memory name)
    files ← exec (storage.list_files name)
    let named = record vm { disks = name ∷ [] }
    netted ← exec (add_net (or_else conf.build_net "virbr0") none (add_disks files named))
    exec (boot answer netted)
    exec (pure netted)

  unfoldable pub run_scripts : List String → Vm → Wait Host Vm
  unfolding run_script
  run_scripts [] vm = exec (pure vm)
  run_scripts (name ∷ names) vm = do
    script ← exec (lift (or_key_error (lookup name scripts)))
    known ← run_script answer elapsed guest [] script vm
    run_scripts names known

  -- What the machine answers to `shutdown -h now`.
  abbrev pub farewell : Option String → Reply
  farewell none = unreachable
  farewell (some ip) = guest ip "shutdown -h now"

  abbrev pub is_known : Option String → Bool
  is_known none = false
  is_known (some ip) = true

  -- The scripts and the shutdown of the `try`, with what the `except` does.
  unfoldable pub build_on : List String → Vm → Wait Host (Unit {0})
  unfolding shutdown run_scripts destroy
  build_on names vm h = on_error (destroy answer storage true vm) (
      (do
        used ← run_scripts names vm
        shutdown answer elapsed 8 30 storage false (is_known used.ip) (farewell used.ip) used)
        h)

  abbrev pub run_build_scripts : String → Option (List String) → Wait Host (Unit {0})
  run_build_scripts name (some (script ∷ names)) = do
    vm ← boot_image name
    build_on (script ∷ names) vm
  run_build_scripts name _ = exec (pure tt)

  -- From the build scripts on.
  abbrev pub finish : String → Option (List String) → Wait Host (Unit {0})
  finish name names = do run_build_scripts name names; exec (pause 4); exec (storage.snapshot name)

  abbrev pub fetch : String → String → Wait Host (Unit {0})
  fetch name url = do exec (storage.download name url); exec (storage.snapshot name)

  -- Without a parent: with an URL and without one.
  abbrev pub from_url : String → ImageConfig → Option String → Wait Host (Unit {0})
  from_url name conf (some url) = fetch name url
  from_url name conf none = finish name conf.build_scripts

  -- `build` builds the parent.
  abbrev pub from_parent :
      (String → Wait Host (Unit {0})) → String → ImageConfig → Option String → Wait Host (Unit {0})
  from_parent build name conf (some parent) = do
    build parent
    exec (storage.clone parent name)
    finish name conf.build_scripts
  from_parent build name conf none = from_url name conf (given conf.url)

  abbrev pub missing : (String → Wait Host (Unit {0})) → String → Wait Host (Unit {0})
  missing build name = do
    conf ← exec (lift (or_key_error (lookup name images)))
    from_parent build name conf (given conf.parent)

  unfoldable pub build_image : ℕ → String → Wait Host (Unit {0})
  unfolding boot_image build_on
  build_image zero name = λ h. none
  build_image (suc fuel) name = do
    exists ← exec (storage.exist name)
    if exists then exec (pure tt) else missing (build_image fuel) name
