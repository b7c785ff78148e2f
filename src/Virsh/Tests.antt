-- ===== src/Virsh/Tests.antt =====
-- A host with two bridges, its machines, its images, and a provider of one host.
use rally_ci.Prelude.{
  ℕ, String, ◌≡◌, refl, true, false, ◌&&◌, Option, none, some, List, [], ◌∷◌, map, eqb,
  if◌then◌else◌, All, arith,
}
use rally_ci.Prelude.Dict.{Dict, lookup, insert}
use rally_ci.Python.{Result, ok, err}
use rally_ci.Python.Text.{show, splitlines, concat}
use rally_ci.Python.Wait.Ends.{HasEnded}
use rally_ci.Utils.{Runtime, get_rnd_name, get_rnd_mac}
use rally_ci.Virsh.Interfaces as Interfaces
use rally_ci.Virsh.Config.{ImageConfig, ProviderConfig}
use rally_ci.Virsh.Remote.{Reply, exited, Host, is_error, run_command}
use rally_ci.Virsh.Bridge.{get_bridge, numbers, has_number}
use rally_ci.Virsh.Storage.{Storage}
use rally_ci.Virsh.Storage.Zfs.{zfs}
use rally_ci.Virsh.Machine.{Vm, new_vm, device_name}
use rally_ci.Python.Exec.{◌>>=◌}
use rally_ci.Virsh.Machine.Domain.{domain}
use rally_ci.Virsh.Machine.Domain.Reader.{Device, disk, interface, devices_of}
use rally_ci.Virsh.Machine.Domain.Additions.{Addition, file, card, add_all}
use rally_ci.Virsh.Machine.Network.{destroy}
use rally_ci.Virsh.Machine.Network.Unregister.{registered, among, HasMachine, count}
use rally_ci.Virsh.Machine.Network.Destroy.{Frees, destroy_lem}
use rally_ci.Virsh.Machine.Shutdown.{asked, shutdown}
use rally_ci.Virsh.Machine.Shutdown.Ends.{shutdown_lem}
use rally_ci.Virsh.Build.{build_image}
use rally_ci.Virsh.Build.Ends.{IsGrounded, IsGrounded-root, IsGrounded-child, build_image-Ends}
use rally_ci.Virsh.Host.{name_nets}
use rally_ci.Virsh.Host.Nets.{Extends, resolve, name_nets-resolve}
use rally_ci.Virsh.Provider.{Node, Provider}

abbrev links : String
links = "1: lo: <UP>\n2: eth0: <UP>\n3: virbr0: <UP>\n4: virbr1: <UP>\n5: br2: <UP>"

-- The first command lists the links, and later ones print nothing.
abbrev answer : List String → String → Reply
answer [] command = exited 0 links
answer (_ ∷ _) command = exited 0 ""

abbrev quiet : List String → String → Reply
quiet log command = exited 0 ""

abbrev runtime : Runtime
runtime = record { clock = 100; draws = 0; sample = λ n length. "a"; byte = λ n. 7 }

abbrev host : Host
host = record { log = []; br_vm = []; vms = []; made = 0; runtime = runtime }

get_bridge-links : (get_bridge answer "virbr" host).0 ≡ ok "virbr2"
unfolding get_bridge Interfaces.interface numbers has_number splitlines show
get_bridge-links = refl

-- Machine 1 is alone on its first bridge, and shares the second with machine 2.
abbrev busy : Host
busy = record host {
  br_vm = (some "virbr2", 1 ∷ []) ∷ (some "virbr3", 1 ∷ 2 ∷ []) ∷ (none, 3 ∷ []) ∷ [];
}

abbrev vm : Vm
vm = record {
  number = 1;
  name = "vm";
  memory = 1024;
  disks = "disk" ∷ [];
  bridges = "virbr2" ∷ "virbr3" ∷ [];
  macs = "02:07" ∷ [];
  devices = [];
  ip = none;
}

abbrev storage : Storage
storage = zfs quiet (λ pattern listing. false) "tank" "tank/ci"

storage-Frees : Frees storage
unfolding zfs rally_ci.Virsh.Storage.command run_command
storage-Frees = record { works = λ d h. refl; keeps = λ d h. refl }

destroy_lem_example :
    ((destroy quiet storage true vm busy).0 ≡ ok tt)
    × ((br : Option String) (m : ℕ)
        → registered br m (destroy quiet storage true vm busy).1.br_vm
          ≡ (if eqb m 1 && among br vm.bridges then false else registered br m busy.br_vm))
    × All HasMachine (destroy quiet storage true vm busy).1.br_vm
unfolding count
destroy_lem_example =
    destroy_lem quiet (λ log br. refl) storage storage-Frees true vm busy
      (omega arith, (omega arith, (omega arith, tt)))

abbrev no_time : List String → ℕ
no_time log = 0

shutdown_lem_example : shutdown quiet no_time 1 30 storage true true (exited 0 "") vm host ≡ (
    let (reply, next) = asked quiet no_time 4 (concat ("virsh list | grep -q " ∷ "vm" ∷ [])) host in
    some (if is_error reply then (ok tt, next) else destroy quiet storage true vm next))
shutdown_lem_example = shutdown_lem quiet no_time 0 30 storage true "" vm host (omega arith)

-- An image that is built on a downloaded one.
abbrev images : Dict ImageConfig
images =
    (
      "base",
      record {
        parent = none;
        url = some "http://images/base";
        build_scripts = none;
        build_net = none;
        memory = none;
      },
    )
    ∷ (
      "ci",
      record {
        parent = some "base";
        url = none;
        build_scripts = some ("setup" ∷ []);
        build_net = none;
        memory = some 2048;
      },
    )
    ∷ []

images-IsGrounded : IsGrounded images 2 "ci"
unfolding lookup
images-IsGrounded =
    IsGrounded-child images 1 "ci" _ "base" refl refl (IsGrounded-root images 0 "base" _ refl refl)

build_image-Ends_example :
    HasEnded (build_image quiet no_time (λ ip command. exited 0 "") storage images [] 2 "ci" host)
build_image-Ends_example =
    build_image-Ends quiet no_time (λ ip command. exited 0 "") storage images [] 2 "ci"
      images-IsGrounded host

abbrev nets : List String
nets = "virbr%" ∷ "eth0 02:01" ∷ "virbr%" ∷ []

name_nets-example :
    (name_nets answer [] none nets host).0
    ≡ ok (("virbr%", "virbr2") ∷ [], some "virbr2", "virbr2" ∷ "eth0 02:01" ∷ "virbr2" ∷ [])
unfolding name_nets Interfaces.interface numbers has_number splitlines show lookup insert
name_nets-example = refl

name_nets-resolve_example :
    Extends [] (("virbr%", "virbr2") ∷ [])
    × ((later : Dict String)
        → Extends (("virbr%", "virbr2") ∷ []) later
        → "virbr2" ∷ "eth0 02:01" ∷ "virbr2" ∷ [] ≡ map (resolve later) nets)
name_nets-resolve_example = name_nets-resolve answer [] none nets host _ name_nets-example

abbrev node : Node
node = record { number = 0; answer = quiet; host = host; la = 0; free = 0 }

abbrev provider : Provider
provider = record { nodes = node ∷ []; last = 99; clock = 100 }

abbrev config : ProviderConfig
config = record { images = images; vms = []; freemb = none; maxla = none }

abbrev load_in : String → Option ℕ
load_in output = some 15

abbrev free_in : String → Option (ℕ × ℕ)
free_in output = some (4096, 1024)

-- A disk, a card with an address and one without.
abbrev additions : List Addition
additions = file "/tank/vm/vda.qcow2" ∷ card "virbr2" (some "02:01") ∷ card "ci0" none ∷ []

abbrev wired : Result Vm
wired = ((new_vm none "ci" >>= add_all additions) host).0

abbrev devices_in : Result Vm → List Device
devices_in (ok v) = devices_of (domain v)
devices_in (err e) = []

wired-devices :
    devices_in wired
    ≡ disk "vda" "/tank/vm/vda.qcow2"
      ∷ interface "virbr2" "02:01"
      ∷ interface "ci0" "02:07:07:07:07:07"
      ∷ []
unfolding new_vm add_all domain devices_of device_name get_rnd_mac get_rnd_name
wired-devices = refl
