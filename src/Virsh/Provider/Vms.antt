-- ===== src/Virsh/Provider/Vms.antt =====
-- `Provider.get_vms` as a whole: the memory that the machines need, the choice of a host, and the machines
-- that the host then makes.
use rally_ci.Prelude.{ℕ, String, Option, none, some, List, [], ◌∷◌, eqb, if◌then◌else◌}
use rally_ci.Prelude.Dict.{Dict}
use rally_ci.Python.{Result, ok, err}
use rally_ci.Config.Data.{VmLocal, Script}
use rally_ci.Virsh.Config.{ProviderConfig}
use rally_ci.Virsh.Remote.{Reply, Host}
use rally_ci.Virsh.Storage.{Storage}
use rally_ci.Virsh.Machine.{Vm}
use rally_ci.Virsh.Host as Hosts
use rally_ci.Virsh.Provider.{Node, Provider, memory_required, get_host}

-- The host object is changed in place: it is in the list of hosts with its new state.
unfoldable pub put_back : Node → List Node → List Node
put_back n [] = []
put_back n (m ∷ ms) =
    let rest = put_back n ms in if eqb m.number n.number then n ∷ rest else m ∷ rest

abbrev after_vms :
    Node → Provider → Option (Result (List Vm) × Host) → Option (Result (List Vm) × Provider)
after_vms n p none = none
after_vms n p (some (result, host)) =
    some (result, record p { nodes = put_back (record n { host = host }) p.nodes })

-- `elapsed`, `guest` and `storage` are those of a host, by its number; `scripts` are those of the config.
module _ (load_in : String → Option ℕ) (free_in : String → Option (ℕ × ℕ))
    (shuffle : ℕ → List Node → List Node) (took : ℕ → ℕ) (elapsed : ℕ → List String → ℕ)
    (guest : ℕ → String → String → Reply) (storage : ℕ → Storage) (scripts : Dict Script)
    (config : ProviderConfig) where
  on_host :
      ℕ → List VmLocal → Option (Result Node × Provider) → Option (Result (List Vm) × Provider)
  on_host fuel vm_confs none = none
  on_host fuel vm_confs (some (err e, p)) = some (err e, p)
  on_host fuel vm_confs (some (ok n, p)) = after_vms n p (
      Hosts.get_vms n.answer (elapsed n.number) (guest n.number) (storage n.number) config.images
        scripts fuel config.vms [] vm_confs n.host)

  choose_host : ℕ → List VmLocal → Result ℕ → Provider → Option (Result (List Vm) × Provider)
  choose_host fuel vm_confs (err e) p = some (err e, p)
  choose_host fuel vm_confs (ok required) p =
      on_host fuel vm_confs (get_host load_in free_in config required shuffle took fuel p)

  -- The fuel is for the rounds of the choice, and for the images.
  unfoldable pub get_vms : ℕ → List VmLocal → Provider → Option (Result (List Vm) × Provider)
  unfolding put_back on_host choose_host memory_required get_host Hosts.get_vms
  get_vms fuel vm_confs p = choose_host fuel vm_confs (memory_required config vm_confs) p
