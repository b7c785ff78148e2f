-- ===== src/Virsh/Storage.antt =====
-- The storage backends `ZFS` and `BTRFS` of rallyci/providers/virsh.py, which keep the images and the
-- disks of machines as data sets or subvolumes. A format string is written as the list of its parts.
pub mod Zfs
pub mod Btrfs
pub mod Keeps
use rally_ci.Prelude.{String, Bool, true, false, List, [], ◌∷◌, map}
use rally_ci.Python.Exec.{Exec, pure, lift, ◌>>=◌, ◌>>◌}
use rally_ci.Python.Text.{concat, path_join, splitlines}
use rally_ci.Virsh.Remote.{Reply, Host, run_command, output_of}

-- What `Host` uses of a backend.
pub record Storage : Type 0 where
  pub create : String → Exec Host (Unit {0})
  pub list_files : String → Exec Host (List String)
  pub clone : String → String → Exec Host (Unit {0})
  pub exist : String → Exec Host Bool
  pub snapshot : String → Exec Host (Unit {0})
  pub destroy : String → Exec Host (Unit {0})
  pub download : String → String → Exec Host (Unit {0})

module _ (answer : List String → String → Reply) where
  -- `yield from self.ssh.run(cmd)`
  unfoldable pub command : List String → Exec Host (Unit {0})
  unfolding run_command concat
  command parts = do run_command answer true (concat parts); pure tt

  -- The output of a command.
  unfoldable pub output : List String → Exec Host String
  unfolding run_command concat
  output parts = do reply ← run_command answer true (concat parts); lift (output_of reply)

-- `os.path.join("/", root, name, f)` for every line
abbrev pub files_in : String → String → String → List String
files_in root name ls = map (λ f. path_join (path_join (path_join "/" root) name) f) (splitlines ls)
