-- ===== src/Virsh/Machine/Domain.antt =====
-- The description of a machine's domain, `self.x` of the class `VM`, with the devices that were added.
pub mod Reader
pub mod Additions
pub mod Read
use rally_ci.Prelude.{String, List, [], ◌∷◌}
use rally_ci.Python.Text.{show}
use rally_ci.Virsh.Element.{Element, elements, se, se_text}
use rally_ci.Virsh.Machine.{Vm}

unfoldable pub domain : Vm → Element
unfolding elements show
domain vm = se "domain" (("type", "kvm") ∷ []) (
    se_text "name" [] vm.name
    ∷ se_text "memory" (("unit", "MiB") ∷ []) (show vm.memory)
    ∷ se_text "currentMemory" (("unit", "MiB") ∷ []) (show vm.memory)
    ∷ se_text "vcpu" (("placement", "static") ∷ []) "1"
    ∷ se "cpu" (("mode", "host-model") ∷ []) (se "model" (("fallback", "forbid") ∷ []) [] ∷ [])
    ∷ se "os" [] (se_text "type" (("arch", "x86_64") ∷ ("machine", "pc-1.0") ∷ []) "hvm" ∷ [])
    ∷ se "features" [] (se "acpi" [] [] ∷ se "apic" [] [] ∷ se "pae" [] [] ∷ [])
    ∷ se "devices" [] vm.devices
    ∷ [])
