-- ===== src/Virsh/Storage/Keeps.antt =====
-- Commands of a host, and the storage backends, leave the list `vms` of its machines alone.
use rally_ci.Prelude.{ℕ, String, ◌≡◌, Bool, true, false, List, [], ◌∷◌}
use rally_ci.Python.Exec.{Exec, lift, pure, ◌>>=◌}
use rally_ci.Python.Exec.Keeps.{Keeps, Keeps-bind}
use rally_ci.Python.Text.{concat}
use rally_ci.Virsh.Remote.{Reply, Host, run_command, output_of}
use rally_ci.Virsh.Storage.{Storage, command, output}
use rally_ci.Virsh.Storage.Zfs.{zfs}
use rally_ci.Virsh.Storage.Btrfs.{btrfs}

abbrev pub Has : List ℕ → Host → Type 0
Has vs h = h.vms ≡ vs

-- What `Host` relies on: no operation of the backend touches `vms`.
pub record LeavesVms (storage : Storage) : Type 0 where
  pub list_files : (vs : List ℕ) (name : String) → Keeps (Has vs) (storage.list_files name)
  pub clone : (vs : List ℕ) (src dst : String) → Keeps (Has vs) (storage.clone src dst)
  pub exist : (vs : List ℕ) (name : String) → Keeps (Has vs) (storage.exist name)
  pub snapshot : (vs : List ℕ) (name : String) → Keeps (Has vs) (storage.snapshot name)
  pub destroy : (vs : List ℕ) (name : String) → Keeps (Has vs) (storage.destroy name)
  pub download : (vs : List ℕ) (name url : String) → Keeps (Has vs) (storage.download name url)

module _ (answer : List String → String → Reply) where
  module _ (vs : List ℕ) where
    run_command-Has : (b : Bool) (s : String) → Keeps (Has vs) (run_command answer b s)
    unfolding run_command
    run_command-Has b s h e = e

    pub Has-command {ℓ} :
        {A : Type ℓ} (b : Bool) (s : String) (k : Reply → Exec Host A)
        → ((reply : Reply) → Keeps (Has vs) (k reply))
        → Keeps (Has vs) (run_command answer b s >>= k)
    Has-command b s k = Keeps-bind (Has vs) (run_command answer b s) k (run_command-Has b s)

    command-Has : (parts : List String) → Keeps (Has vs) (command answer parts)
    unfolding command
    command-Has parts = Has-command true (concat parts) (λ _. pure tt) (λ _ h e. e)

    output-Has : (parts : List String) → Keeps (Has vs) (output answer parts)
    unfolding output
    output-Has parts =
        Has-command true (concat parts) (λ reply. lift (output_of reply)) (λ reply h e. e)

  module _ (search : String → String → Bool) (path : String) where
    pub zfs-LeavesVms : (dataset : String) → LeavesVms (zfs answer search path dataset)
    unfolding zfs
    zfs-LeavesVms dataset = record {
      list_files =
          λ vs name. Keeps-bind (Has vs) (output answer _) _ (output-Has vs _) (λ ls h e. e);
      clone = λ vs src dst. command-Has vs _;
      exist = λ vs name. Keeps-bind (Has vs) (output answer _) _ (output-Has vs _) (λ ls h e. e);
      snapshot = λ vs name. command-Has vs _;
      destroy = λ vs name. command-Has vs _;
      download = λ vs name url. Keeps-bind (Has vs) (command answer _) _ (command-Has vs _) (λ _.
          Keeps-bind (Has vs) (command answer _) _ (command-Has vs _) (λ _. command-Has vs _));
    }

    pub btrfs-LeavesVms : LeavesVms (btrfs answer search path)
    unfolding btrfs
    btrfs-LeavesVms = record {
      list_files =
          λ vs name. Keeps-bind (Has vs) (output answer _) _ (output-Has vs _) (λ ls h e. e);
      clone = λ vs src dst.
          Has-command vs false _
            (λ _.
              command answer
                ("btrfs subvolume snapshot " ∷ path ∷ "/" ∷ src ∷ " " ∷ path ∷ "/" ∷ dst ∷ []))
            (λ _. command-Has vs _);
      exist = λ vs name. Keeps-bind (Has vs) (output answer _) _ (output-Has vs _) (λ ls h e. e);
      snapshot = λ vs name h e. e;
      destroy = λ vs name. command-Has vs _;
      download = λ vs name url. Keeps-bind (Has vs) (command answer _) _ (command-Has vs _) (λ _.
          Keeps-bind (Has vs) (command answer _) _ (command-Has vs _) (λ _. command-Has vs _));
    }
