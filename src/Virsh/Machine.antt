-- ===== src/Virsh/Machine.antt =====
-- The class `VM` of rallyci/providers/virsh.py: a machine, its disks and networks, and its end.
pub mod Network
pub mod Shutdown
pub mod Domain
use rally_ci.Prelude.{
  ℕ, zero, suc, ◌+◌, String, Bool, true, false, Option, none, some, List, [], ◌∷◌, ◌++◌, eqb,
  if◌then◌else◌,
}
use rally_ci.Python.{Result, ok, err}
use rally_ci.Python.Exec.{Exec, pure, lift, gets, modify, ◌>>=◌, ◌>>◌}
use rally_ci.Python.Text.{concat, split}
use rally_ci.Utils.{Runtime, get_rnd_name, get_rnd_mac}
use rally_ci.Job.{or_else}
use rally_ci.Virsh.Remote.{Reply, Host, run_command}
use rally_ci.Virsh.Element.{Element, elements, se, se_text}
use rally_ci.Virsh.Storage.{Storage}

abbrev pub disk_element : String → String → Element
disk_element dev path = se "disk" (("device", "disk") ∷ ("type", "file") ∷ []) (
    se "driver" (("name", "qemu") ∷ ("type", "qcow2") ∷ ("cache", "unsafe") ∷ []) []
    ∷ se "source" (("file", path) ∷ []) []
    ∷ se "target" (("dev", dev) ∷ ("bus", "virtio") ∷ []) []
    ∷ [])

abbrev pub net_element : String → String → Element
net_element bridge mac = se "interface" (("type", "bridge") ∷ []) (
    se "source" (("bridge", bridge) ∷ []) []
    ∷ se "model" (("type", "virtio") ∷ []) []
    ∷ se "mac" (("address", mac) ∷ []) []
    ∷ [])

abbrev memballoon : Element
memballoon = se "memballoon" (("model", "virtio") ∷ []) (
    se "address"
      (("type", "pci")
        ∷ ("domain", "0x0000")
        ∷ ("bus", "0x00")
        ∷ ("slot", "0x09")
        ∷ ("function", "0x0")
        ∷ [])
      []
    ∷ [])

-- What every machine has
abbrev pub own_devices : List Element
own_devices =
    se_text "emulator" [] "/usr/bin/kvm"
    ∷ se "controller" (("type", "pci") ∷ ("index", "0") ∷ ("model", "pci-root") ∷ []) []
    ∷ se "graphics" (("type", "spice") ∷ ("autoport", "yes") ∷ []) []
    ∷ memballoon
    ∷ []

-- `number` is the identity of the object, and `devices` are the sub-elements of `self.devices`.
pub record Vm : Type 0 where
  pub number : ℕ
  pub name : String
  pub memory : ℕ
  pub disks : List String
  pub bridges : List String
  pub macs : List String
  pub devices : List Element
  pub ip : Option String

abbrev pub on_runtime : {A : Type 0} → Exec Runtime A → Exec Host A
on_runtime m h = let (result, runtime) = m h.runtime in (result, record h { runtime = runtime })

-- `VM.__init__`: `memory` is that of the config and `local_name` the name of the local one.
unfoldable pub new_vm : Option ℕ → String → Exec Host Vm
new_vm memory local_name = do
  name ← on_runtime (get_rnd_name local_name 12)
  number ← gets (λ h. h.made)
  modify (λ h. record h { made = suc h.made })
  pure (record {
    number = number;
    name = name;
    memory = or_else memory 1024;
    disks = [];
    bridges = [];
    macs = [];
    devices = own_devices;
    ip = none;
  })

abbrev last_of : String → List String → String
last_of s [] = s
last_of s (t ∷ ts) = last_of t ts

abbrev first_of : List String → String
first_of [] = ""
first_of (s ∷ _) = s

-- `os.path.split(path)[1].split(".")[0]`
unfoldable pub device_name : String → String
unfolding split
device_name path = first_of (split b'.' (last_of "" (split b'/' path)))

unfoldable pub add_disk : String → Vm → Vm
unfolding device_name elements
add_disk path vm = record vm { devices = vm.devices ++ disk_element (device_name path) path ∷ [] }

abbrev pub add_disks : List String → Vm → Vm
add_disks [] vm = vm
add_disks (f ∷ fs) vm = add_disks fs (add_disk f vm)

abbrev with_net : String → String → Vm → Vm
with_net bridge mac vm = record vm {
  devices = vm.devices ++ net_element bridge mac ∷ [];
  macs = vm.macs ++ mac ∷ [];
  bridges = vm.bridges ++ bridge ∷ [];
}

-- An address that is missing or empty is drawn.
unfoldable pub add_net : String → Option String → Vm → Exec Host Vm
unfolding get_rnd_mac
add_net bridge (some (String.◌∷◌ c mac)) vm = pure (with_net bridge (String.◌∷◌ c mac) vm)
add_net bridge _ vm = do mac ← on_runtime get_rnd_mac; pure (with_net bridge mac vm)

module _ (answer : List String → String → Reply) where
  unfoldable pub boot : Vm → Exec Host (Unit {0})
  unfolding run_command concat
  boot vm = do
    let conf = concat ("/tmp/.conf." ∷ vm.name ∷ ".xml" ∷ [])
    run_command answer true (concat ("cat > " ∷ conf ∷ []))
    run_command answer true (concat ("virsh create " ∷ conf ∷ []))
    pure tt
