-- ===== src/Virsh/Machine/Domain/Read.antt =====
-- What a reader of the description of a domain finds in it.
use rally_ci.Prelude.{ℕ, String, Option, none, [], ◌∷◌}
use rally_ci.Python.Text.{concat}
use rally_ci.Job.{or_else}
use rally_ci.Virsh.Remote.{Host}
use rally_ci.Virsh.Machine.{Vm, own_devices}

abbrev new_machine : Option ℕ → String → Host → Vm
new_machine memory local_name h = record {
  number = h.made;
  name = concat ("_rci_" ∷ local_name ∷ h.runtime.sample h.runtime.draws 12 ∷ []);
  memory = or_else memory 1024;
  disks = [];
  bridges = [];
  macs = [];
  devices = own_devices;
  ip = none;
}
