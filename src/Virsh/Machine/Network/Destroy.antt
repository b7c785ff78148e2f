-- ===== src/Virsh/Machine/Network/Destroy.antt =====
-- What `destroy` and `cleanup_net` do where the host's commands succeed.
use rally_ci.Prelude.{
  ℕ, String, ◌≡◌, refl, Bool, true, false, ◌&&◌, Option, List, [], ◌∷◌, ◌++◌, eqb, if◌then◌else◌,
  All, map, append-nil, append_assoc,
}
use rally_ci.Python.{ok}
use rally_ci.Python.Exec.{pure}
use rally_ci.Python.Text.{concat}
use rally_ci.Virsh.Remote.{Reply, exited, Host, run_command}
use rally_ci.Virsh.Storage.{Storage}
use rally_ci.Virsh.Machine.{Vm}
use rally_ci.Virsh.Machine.Network.{
  Bridges, delete_link, in_use, unregister_all, delete_links, cleanup_net, destroy_disks, destroy,
}
use rally_ci.Virsh.Machine.Network.Unregister.{
  registered, among, AtMostOnce, HasMachine, registered-unregister_all, registered-in_use,
  in_use-HasMachine,
}

-- The bridges that have no machine.
unfoldable pub unused : Bridges → List (Option String)
unused [] = []
unused ((br, []) ∷ d) = br ∷ unused d
unused ((br, _ ∷ _) ∷ d) = unused d

-- The host deletes the links that it is told to delete.
abbrev pub Deletes : (List String → String → Reply) → Type 0
Deletes answer =
    (log : List String) (br : Option String) → answer log (delete_link br) ≡ exited 0 ""

-- The storage destroys disks, and leaves the bridges alone.
pub record Frees (storage : Storage) : Type 0 where
  pub works : (d : String) (h : Host) → (storage.destroy d h).0 ≡ ok tt
  pub keeps : (d : String) (h : Host) → (storage.destroy d h).1.br_vm ≡ h.br_vm

module _ (answer : List String → String → Reply) (deletes : Deletes answer) where
  delete_links_lem :
      (d : Bridges) (h : Host)
      → ((delete_links answer d h).0 ≡ ok tt)
        × ((delete_links answer d h).1.br_vm ≡ h.br_vm)
        × ((delete_links answer d h).1.log ≡ h.log ++ map delete_link (unused d))
  unfolding delete_links unused
  delete_links_lem [] h = (refl, refl, simp append-nil)
  delete_links_lem ((br, []) ∷ d) h =
      let next = record h { log = h.log ++ delete_link br ∷ [] } in
      let (e, kept, log) = delete_links_lem d next in
      rw (deletes h.log br) (e, kept, rw log (simp append_assoc))
  delete_links_lem ((br, m ∷ ms) ∷ d) h = delete_links_lem d h

  -- Where links can be deleted, `cleanup_net` deletes the link of every bridge that has no machine, in
  -- order, and of no other, and forgets exactly those bridges.
  pub cleanup_net_lem :
      (h : Host)
      → ((cleanup_net answer h).0 ≡ ok tt)
        × ((cleanup_net answer h).1.br_vm ≡ in_use h.br_vm)
        × ((cleanup_net answer h).1.log ≡ h.log ++ map delete_link (unused h.br_vm))
  unfolding cleanup_net
  cleanup_net_lem h =
      let (e, kept, log) = delete_links_lem h.br_vm h in rw (e, kept) (refl, refl, log)

  module _ (storage : Storage) (frees : Frees storage) where
    destroy_disks_lem :
        (disks : List String) (h : Host)
        → ((destroy_disks storage disks h).0 ≡ ok tt)
          × ((destroy_disks storage disks h).1.br_vm ≡ h.br_vm)
    unfolding destroy_disks
    destroy_disks_lem [] h = (refl, refl)
    destroy_disks_lem (d ∷ ds) h =
        let (e, kept) = destroy_disks_lem ds (storage.destroy d h).1 in
        rw (frees.works d h) (e, rw kept (frees.keeps d h))

    disks_lem :
        (too : Bool) (disks : List String) (h : Host)
        → let after = (if too then destroy_disks storage disks else pure tt) h in
          (after.0 ≡ ok tt) × (after.1.br_vm ≡ h.br_vm)
    disks_lem true disks h = destroy_disks_lem disks h
    disks_lem false disks h = (refl, refl)

    -- Where links and disks can be destroyed, whatever `virsh destroy` says, destroying a machine takes
    -- it off its bridges, leaves all other machines on theirs, and leaves no bridge without a machine,
    -- provided that the machine was at most once on each bridge.
    pub destroy_lem :
        (too : Bool) (vm : Vm) (h : Host)
        → AtMostOnce vm.number h.br_vm
        → let after = destroy answer storage too vm h in
          (after.0 ≡ ok tt)
          × ((br : Option String) (m : ℕ)
              → registered br m after.1.br_vm ≡ (
                  if eqb m vm.number && among br vm.bridges
                  then false
                  else registered br m h.br_vm))
          × All HasMachine after.1.br_vm
    unfolding destroy run_command concat
    destroy_lem too vm h once =
        let stopped = record h { log = h.log ++ concat ("virsh destroy " ∷ vm.name ∷ []) ∷ [] } in
        let (e, kept) = disks_lem too vm.disks stopped in
        let wiped = ((if too then destroy_disks storage vm.disks else pure tt) stopped).1 in
        let left = unregister_all vm.number vm.bridges wiped.br_vm in
        let (e', entries, log) = cleanup_net_lem (record wiped { br_vm = left }) in
        rw e (
          e',
          λ br m.
              rw
                (
                  entries,
                  registered-in_use left br m,
                  kept,
                  registered-unregister_all vm.number vm.bridges h.br_vm br m once,
                )
                refl,
          rw entries (in_use-HasMachine left),
        )
