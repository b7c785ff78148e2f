-- ===== src/Virsh/Storage/Btrfs.antt =====
-- The backend `BTRFS`. `search` is whether `re.search` finds a pattern in a text with `re.MULTILINE`.
use rally_ci.Prelude.{String, Bool, false, List, [], ◌∷◌}
use rally_ci.Python.Exec.{Exec, pure, ◌>>=◌, ◌>>◌}
use rally_ci.Python.Text.{concat}
use rally_ci.Virsh.Remote.{Reply, Host, run_command}
use rally_ci.Virsh.Storage.{Storage, command, output, files_in}

module _ (answer : List String → String → Reply) (search : String → String → Bool)
    (path : String) where
  unfoldable create : String → Exec Host (Unit {0})
  create name = command answer ("btrfs subvolume create " ∷ path ∷ "/" ∷ name ∷ [])

  unfoldable list_files : String → Exec Host (List String)
  list_files name = do
    ls ← output answer ("ls " ∷ path ∷ "/" ∷ name ∷ [])
    pure (files_in path name ls)

  -- A subvolume of the name is deleted first, and it is no error if there is none.
  unfoldable clone : String → String → Exec Host (Unit {0})
  unfolding run_command concat
  clone src dst = do
    run_command answer false (concat ("btrfs subvolume delete " ∷ path ∷ "/" ∷ dst ∷ []))
    command answer ("btrfs subvolume snapshot " ∷ path ∷ "/" ∷ src ∷ " " ∷ path ∷ "/" ∷ dst ∷ [])

  unfoldable exist : String → Exec Host Bool
  unfolding concat
  exist name = do
    listing ← output answer ("btrfs subvolume list " ∷ path ∷ [])
    pure (search (concat (" " ∷ name ∷ "$" ∷ [])) listing)

  unfoldable snapshot : String → Exec Host (Unit {0})
  snapshot name = pure tt

  unfoldable destroy : String → Exec Host (Unit {0})
  destroy name = command answer ("btrfs subvolume delete " ∷ path ∷ "/" ∷ name ∷ [])

  unfoldable download : String → String → Exec Host (Unit {0})
  unfolding create
  download name url = do
    create name
    command answer ("wget -nv " ∷ url ∷ " -O /" ∷ path ∷ "/" ∷ name ∷ "/vda.qcow2" ∷ [])
    command answer ("qemu-img resize /" ∷ path ∷ "/" ∷ name ∷ "/vda.qcow2 32G" ∷ [])

  unfoldable pub btrfs : Storage
  unfolding create list_files clone exist snapshot destroy download
  btrfs = record {
    create = create;
    list_files = list_files;
    clone = clone;
    exist = exist;
    snapshot = snapshot;
    destroy = destroy;
    download = download;
  }
