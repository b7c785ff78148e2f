-- ===== src/Virsh/Storage/Zfs.antt =====
-- The backend `ZFS`. `search` is whether `re.search` finds a pattern in a text with `re.MULTILINE`.
use rally_ci.Prelude.{String, Bool, List, [], ◌∷◌}
use rally_ci.Python.Exec.{Exec, pure, ◌>>=◌, ◌>>◌}
use rally_ci.Python.Text.{concat}
use rally_ci.Virsh.Remote.{Reply, Host}
use rally_ci.Virsh.Storage.{Storage, command, output, files_in}

module _ (answer : List String → String → Reply) (search : String → String → Bool)
    (path dataset : String) where
  unfoldable create : String → Exec Host (Unit {0})
  create name = command answer ("zfs create " ∷ dataset ∷ "/" ∷ name ∷ [])

  unfoldable list_files : String → Exec Host (List String)
  list_files name = do
    ls ← output answer ("ls /" ∷ path ∷ "/" ∷ name ∷ [])
    pure (files_in dataset name ls)

  unfoldable clone : String → String → Exec Host (Unit {0})
  clone src dst =
      command answer ("zfs clone " ∷ dataset ∷ "/" ∷ src ∷ "@1 " ∷ dataset ∷ "/" ∷ dst ∷ [])

  unfoldable exist : String → Exec Host Bool
  unfolding concat
  exist name = do
    listing ← output answer ("zfs list" ∷ [])
    pure (search (concat ("^" ∷ dataset ∷ "/" ∷ name ∷ " " ∷ [])) listing)

  unfoldable snapshot : String → Exec Host (Unit {0})
  snapshot name = command answer ("zfs snapshot " ∷ dataset ∷ "/" ∷ name ∷ "@" ∷ "1" ∷ [])

  unfoldable destroy : String → Exec Host (Unit {0})
  destroy name = command answer ("zfs destroy " ∷ dataset ∷ "/" ∷ name ∷ [])

  unfoldable download : String → String → Exec Host (Unit {0})
  unfolding create
  download name url = do
    create name
    command answer ("wget -nv " ∷ url ∷ " -O " ∷ path ∷ "/" ∷ name ∷ "/vda.qcow2" ∷ [])
    command answer ("qemu-img resize " ∷ path ∷ "/" ∷ name ∷ "/vda.qcow2 32G" ∷ [])

  unfoldable pub zfs : Storage
  unfolding create list_files clone exist snapshot destroy download
  zfs = record {
    create = create;
    list_files = list_files;
    clone = clone;
    exist = exist;
    snapshot = snapshot;
    destroy = destroy;
    download = download;
  }
