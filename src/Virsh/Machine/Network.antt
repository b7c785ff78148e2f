-- ===== src/Virsh/Machine/Network.antt =====
-- `VM.destroy` and `Host.cleanup_net`: a machine leaves its bridges, and bridges without machines go.
-- `cleanup_net` runs under `DYNAMIC_BRIDGE_LOCK`; no machine is registered meanwhile, by assumption.
pub mod Unregister
pub mod Destroy
use rally_ci.Prelude.{
  ℕ, String, ◌==◌, Bool, true, false, Option, none, some, List, [], ◌∷◌, eqb, if◌then◌else◌,
}
use rally_ci.Python.Exec.{Exec, pure, modify, ◌>>=◌, ◌>>◌}
use rally_ci.Python.Text.{concat}
use rally_ci.Virsh.Remote.{Reply, Host, run_command}
use rally_ci.Virsh.Storage.{Storage}
use rally_ci.Virsh.Machine.{Vm}

-- `br_vm`: the machines on a bridge, by the bridge's name or `None`.
abbrev pub Bridges : Type 0
Bridges = List (Option String × List ℕ)

abbrev pub same_bridge : Option String → Option String → Bool
same_bridge none none = true
same_bridge (some a) (some b) = a == b
same_bridge _ _ = false

-- `lst.remove(vm)`; a list that does not hold the machine stays.
unfoldable pub remove_first : ℕ → List ℕ → List ℕ
remove_first n [] = []
remove_first n (m ∷ ms) = let rest = remove_first n ms in if eqb m n then ms else m ∷ rest

-- The body of the loop over `self.bridges`. A dict has one entry for a bridge at most.
unfoldable pub unregister : ℕ → String → Bridges → Bridges
unfolding remove_first
unregister n br [] = []
unregister n br ((k, l) ∷ d) =
    (k, if same_bridge k (some br) then remove_first n l else l) ∷ unregister n br d

unfoldable pub unregister_all : ℕ → List String → Bridges → Bridges
unfolding unregister
unregister_all n [] d = d
unregister_all n (br ∷ brs) d = unregister_all n brs (unregister n br d)

-- "%s" of a bridge
abbrev pub bridge_text : Option String → String
bridge_text none = "None"
bridge_text (some br) = br

abbrev pub delete_link : Option String → String
delete_link br = concat ("ip link del " ∷ bridge_text br ∷ [])

-- The entries that still have machines.
unfoldable pub in_use : Bridges → Bridges
in_use [] = []
in_use ((br, []) ∷ d) = in_use d
in_use ((br, m ∷ ms) ∷ d) = (br, m ∷ ms) ∷ in_use d

unfoldable pub destroy_disks : Storage → List String → Exec Host (Unit {0})
destroy_disks storage [] = pure tt
destroy_disks storage (disk ∷ disks) = do storage.destroy disk; destroy_disks storage disks

module _ (answer : List String → String → Reply) where
  -- The first loop of `cleanup_net`
  unfoldable pub delete_links : Bridges → Exec Host (Unit {0})
  unfolding run_command concat
  delete_links [] = pure tt
  delete_links ((br, []) ∷ d) = do run_command answer true (delete_link br); delete_links d
  delete_links ((br, _ ∷ _) ∷ d) = delete_links d

  -- The second loop deletes the entries of the bridges that the first one deleted.
  unfoldable pub cleanup_net : Exec Host (Unit {0})
  unfolding delete_links in_use
  cleanup_net = do (λ h. delete_links h.br_vm h); modify (λ h. record h { br_vm = in_use h.br_vm })

  unfoldable pub destroy : Storage → Bool → Vm → Exec Host (Unit {0})
  unfolding run_command concat destroy_disks unregister_all cleanup_net
  destroy backend storage vm = do
    run_command answer false (concat ("virsh destroy " ∷ vm.name ∷ []))
    if storage then destroy_disks backend vm.disks else pure tt
    modify (λ h. record h { br_vm = unregister_all vm.number vm.bridges h.br_vm })
    cleanup_net
