-- ===== src/Virsh/Host/Tests.antt =====
-- Two machines on one new bridge, the first of them with an image that the host has.
use rally_ci.Prelude.{
  ℕ, String, ◌==◌, ◌≡◌, refl, ap, ◌∙◌, Bool, true, false, Option, none, some, List, [], ◌∷◌, map,
  if◌then◌else◌,
}
use rally_ci.Prelude.Dict.{Dict, lookup, insert}
use rally_ci.Python.Text.{show, splitlines}
use rally_ci.Python.Wait.Keeps.{EndsIn}
use rally_ci.Config.Data.{VmLocal}
use rally_ci.Virsh.Config.{ImageConfig, VmConfig}
use rally_ci.Virsh.Remote.{Reply, exited, Host}
use rally_ci.Virsh.Bridge.{has_number}
use rally_ci.Virsh.Storage.{Storage, command, output}
use rally_ci.Virsh.Storage.Zfs.{zfs}
use rally_ci.Virsh.Storage.Keeps.{zfs-LeavesVms}
use rally_ci.Virsh.Build.Ends.{IsGrounded}
use rally_ci.Virsh.Build.{given}
use rally_ci.Virsh.Machine.{Vm}
use rally_ci.Python.{Result, ok}
use rally_ci.Virsh.Host.{get_vms, put_on}
use rally_ci.Virsh.Host.Keeps.{AreGrounded}
use rally_ci.Virsh.Host.Kept.{Lacks, KeptAll, get_vms-KeptAll}

abbrev quiet : List String → String → Reply
quiet log command = exited 0 ""

abbrev host : Host
host = record {
  log = [];
  br_vm = [];
  vms = 4 ∷ [];
  made = 5;
  runtime = record { clock = 100; draws = 0; sample = λ n length. "a"; byte = λ n. 7 };
}

abbrev storage : Storage
storage = zfs quiet (λ pattern listing. true) "tank" "tank/ci"

abbrev image : ImageConfig
image = record {
  parent = none;
  url = some "http://images/base";
  build_scripts = none;
  build_net = none;
  memory = none;
}

abbrev images : Dict ImageConfig
images = ("base", image) ∷ []

abbrev confs : Dict VmConfig
confs =
    ("builder", record { memory = none; image = some "base"; net = some ("ci%" ∷ []) })
    ∷ ("target", record { memory = none; image = none; net = some ("ci%" ∷ []) })
    ∷ []

-- No image has a parent.
found-parentless :
    (found : Bool) (conf : ImageConfig) (parent : String)
    → (if found then some image else none) ≡ some conf
    → given conf.parent ≡ some parent
    → ⊥
found-parentless true conf parent e p =
    let same : image ≡ conf = cc in
    let no : none ≡ some parent = ap (λ c. given c.parent) same ∙ p in cc
found-parentless false conf parent e p = cc

confs-AreGrounded : AreGrounded 1 images confs
unfolding IsGrounded lookup
confs-AreGrounded name image conf e g conf' parent e' p =
    found-parentless ("base" == image) conf' parent e' p

abbrev wanted : List VmLocal
wanted =
    record { name = "builder"; scripts = none; scp = none }
    ∷ record { name = "target"; scripts = none; scp = none }
    ∷ []

abbrev numbers_of : Option (Result (List Vm) × Host) → Option (List ℕ × List ℕ)
numbers_of (some (ok vms, h)) = some (map (λ vm. vm.number) vms, h.vms)
numbers_of _ = none

-- The machines 5 and 6 are made.
get_vms-two :
    numbers_of (
      get_vms quiet (λ log. 0) (λ ip command. exited 0 "") storage images [] 1 confs [] wanted host)
    ≡ some (5 ∷ 6 ∷ [], 4 ∷ 5 ∷ 6 ∷ [])
unfolding get_vms put_on zfs command output lookup insert show splitlines has_number
get_vms-two = refl

get_vms-KeptAll_example :
    EndsIn (Lacks (4 ∷ []) 2) (KeptAll (4 ∷ []) 2) (
      get_vms quiet (λ log. 0) (λ ip command. exited 0 "") storage images [] 1 confs [] wanted host)
get_vms-KeptAll_example =
    get_vms-KeptAll quiet (λ log. 0) (λ ip command. exited 0 "") storage images [] 1 confs
      (zfs-LeavesVms quiet (λ pattern listing. true) "tank" "tank/ci") confs-AreGrounded wanted host
