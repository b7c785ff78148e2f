-- ===== src/Runner/Cleanup.antt =====
-- `cleanup` of the ssh runner, and `Provider.cleanup` of rallyci/providers/virsh.py, which it ends with:
-- files are copied from the machines, and then the machines are destroyed.
pub mod Destroyed
use rally_ci.Prelude.{ℕ, String, Bool, true, false, Option, none, some, List, [], ◌∷◌, ◌++◌}
use rally_ci.Python.{Result, ok, err}
use rally_ci.Python.Exec.{Exec, pure, lift, modify, ◌>>=◌, ◌>>◌}
use rally_ci.Python.Text.{path_join}
use rally_ci.Config.Data.{VmLocal}
use rally_ci.Job.{or_else}
use rally_ci.Ssh.Command.{Client, Code}
use rally_ci.Ssh.Scp.{Reading, Copy, scp_get}

-- `closed` is the console log's; `copied` are the copies that were started, and `destroyed` the machines
-- that were asked to go.
pub record Cleaning : Type 0 where
  pub closed : Bool
  pub copied : List (String × String)
  pub destroyed : List String

-- A machine with its `local_cfg`
pub record Guest : Type 0 where
  pub name : String
  pub local_cfg : VmLocal

-- What a caller that drops the exit code of a copy sees of it
abbrev pub dropped : Result (Option Code) × Copy → Result (Unit {0})
dropped (ok code, c) = ok tt
dropped (err e, c) = err e

-- `get_ssh` is `VM.get_ssh`, `execute` runs a command line, and `destroy` is `VM.destroy`.
module _ (get_ssh : String → Result Client) (execute : List String → Reading)
    (destroy : String → Result (Unit {0})) (log_path : String) where
  abbrev pub fetch_file : String → String → String → Client → Exec Cleaning (Unit {0})
  fetch_file vm src dst ssh s = (
    dropped (scp_get execute ssh src (path_join log_path dst) (record { is_terminated = false })),
    record s { copied = s.copied ++ (vm, src) ∷ [] },
  )

  unfoldable pub copy : String → String × String → Exec Cleaning (Unit {0})
  unfolding scp_get path_join
  copy vm (src, dst) = do ssh ← lift (get_ssh vm); fetch_file vm src dst ssh

  unfoldable pub copy_files : String → List (String × String) → Exec Cleaning (Unit {0})
  unfolding copy
  copy_files vm [] = pure tt
  copy_files vm (f ∷ fs) = do copy vm f; copy_files vm fs

  unfoldable pub copy_all : List Guest → Exec Cleaning (Unit {0})
  unfolding copy_files
  copy_all [] = pure tt
  copy_all (vm ∷ vms) = do copy_files vm.name (or_else vm.local_cfg.scp []); copy_all vms

  abbrev destroy_one : String → Exec Cleaning (Unit {0})
  destroy_one vm s = (destroy vm, record s { destroyed = s.destroyed ++ vm ∷ [] })

  -- `Provider.cleanup`
  unfoldable pub destroy_all : List Guest → Exec Cleaning (Unit {0})
  destroy_all [] = pure tt
  destroy_all (vm ∷ vms) = do destroy_one vm.name; destroy_all vms

  unfoldable pub cleanup : List Guest → Exec Cleaning (Unit {0})
  unfolding copy_all destroy_all
  cleanup vms = do modify (λ s. record s { closed = true }); copy_all vms; destroy_all vms
