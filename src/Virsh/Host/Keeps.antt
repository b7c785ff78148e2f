-- ===== src/Virsh/Host/Keeps.antt =====
-- What a step of `Host.get_vms` leaves of the list `vms`: naming the networks of a machine leaves it as
-- it is, and `_get_vm` puts the machine that it returns at its end.
use rally_ci.Prelude.{
  ℕ, suc, String, ◌≡◌, refl, true, Option, none, some, List, [], ◌∷◌, ◌++◌, length,
}
use rally_ci.Prelude.Dict.{Dict, lookup, insert}
use rally_ci.Python.Exec.{pure}
use rally_ci.Python.Exec.Keeps.{Keeps, Keeps-bind, Keeps-bind-lift}
use rally_ci.Python.Text.{split, join, concat, splitlines}
use rally_ci.Python.Wait.{exec}
use rally_ci.Python.Wait.Ends.{HasEnded, HasEnded-bind}
use rally_ci.Python.Wait.Keeps.{EndsIn, Lasts, Lasts-bind, EndsIn-bind, EndsIn-exec}
use rally_ci.Config.Data.{Script, VmLocal}
use rally_ci.Utils.{get_rnd_name}
use rally_ci.Virsh.Config.{ImageConfig, VmConfig}
use rally_ci.Virsh.Remote.{Reply, Host, output_of}
use rally_ci.Virsh.Storage.{Storage}
use rally_ci.Virsh.Storage.Keeps.{Has, LeavesVms, Has-command}
use rally_ci.Virsh.Bridge.{get_bridge, bridge_of, numbers, first_free}
use rally_ci.Virsh.Machine.{Vm, on_runtime, new_vm, add_disks, boot}
use rally_ci.Virsh.Build.{given, build_image}
use rally_ci.Virsh.Build.Ends.{IsGrounded, build_image-Ends}
use rally_ci.Virsh.Build.Keeps.{new_vm-Has, add_net-Has, boot-Has, build_image-Has}
use rally_ci.Virsh.Host.{
  dynamic, name_in, renamed, bridge_for, name_parts, name_net, name_nets, connect, connect_all,
  keep, image_of, get_vm,
}

module _ (answer : List String → String → Reply) (vs : List ℕ) where
  get_bridge-Has : (prefix : String) → Keeps (Has vs) (get_bridge answer prefix)
  unfolding get_bridge
  get_bridge-Has prefix = Has-command answer vs true "ip link list" _ λ reply.
      Keeps-bind-lift (Has vs) (output_of reply) _ λ data_.
        Keeps-bind-lift (Has vs)
          (bridge_of prefix (
            first_free (numbers prefix (splitlines data_)) 0
              (suc (length (numbers prefix (splitlines data_))))))
          _
          λ br.
            Has-command answer vs true (concat ("ip link add " ∷ br ∷ " type bridge" ∷ [])) _ λ _.
              Has-command answer vs true (concat ("ip link set " ∷ br ∷ " up" ∷ [])) (λ _. pure br)
                (λ _ h e. e)

  bridge_for-Has :
      (found : Option String) (prefix name : String) (ifs : Dict String)
      → Keeps (Has vs) (bridge_for answer found prefix name ifs)
  bridge_for-Has (some br) prefix name ifs = λ h e. e
  bridge_for-Has none prefix name ifs =
      Keeps-bind (Has vs) (get_bridge answer prefix) (λ br. pure (br, insert name br ifs))
        (get_bridge-Has prefix) (λ br h e. e)

  name_parts-Has :
      (prefix : Option String) (ifs : Dict String) (br : Option String) (parts : List String)
      → Keeps (Has vs) (name_parts answer prefix ifs br parts)
  name_parts-Has none ifs br parts = λ h e. e
  name_parts-Has (some prefix) ifs br parts =
      Keeps-bind (Has vs)
        (bridge_for answer (lookup (name_in parts) ifs) prefix (name_in parts) ifs)
        (λ (made, ifs').
          pure (record { ifs = ifs'; br = some made; net = join " " (renamed made parts) }))
        (bridge_for-Has (lookup (name_in parts) ifs) prefix _ ifs) (λ made h e. e)

  pub name_nets-Has :
      (ifs : Dict String) (br : Option String) (nets : List String)
      → Keeps (Has vs) (name_nets answer ifs br nets)
  unfolding name_nets name_net
  name_nets-Has ifs br [] = λ h e. e
  name_nets-Has ifs br (net ∷ nets) =
      Keeps-bind (Has vs) (name_net answer ifs br net) _
        (name_parts-Has (dynamic (name_in (split b' ' net))) ifs br (split b' ' net))
        λ n.
          Keeps-bind (Has vs) (name_nets answer n.ifs n.br nets)
            (λ (ifs', br', named). pure (ifs', br', n.net ∷ named)) (name_nets-Has n.ifs n.br nets)
            (λ named h e. e)

  connect-Has : (parts : List String) (vm : Vm) → Keeps (Has vs) (connect parts vm)
  unfolding connect
  connect-Has [] vm = add_net-Has answer vs "" none vm
  connect-Has (name ∷ []) vm = add_net-Has answer vs name none vm
  connect-Has (name ∷ mac ∷ _) vm = add_net-Has answer vs name (some mac) vm

  connect_all-Has : (nets : List String) (vm : Vm) → Keeps (Has vs) (connect_all nets vm)
  unfolding connect_all
  connect_all-Has [] vm = λ h e. e
  connect_all-Has (net ∷ nets) vm =
      Keeps-bind (Has vs) (connect (split b' ' net) vm) _ (connect-Has (split b' ' net) vm)
        (λ v. connect_all-Has nets v)

-- The images of the machines that are configured have no more than `fuel` ancestors.
abbrev pub AreGrounded : ℕ → Dict ImageConfig → Dict VmConfig → Type 0
AreGrounded fuel images confs =
    (name image : String) (conf : VmConfig)
    → lookup name confs ≡ some conf
    → given conf.image ≡ some image
    → IsGrounded images fuel image

module _ (answer : List String → String → Reply) (elapsed : List String → ℕ)
    (guest : String → String → Reply) (storage : Storage) (images : Dict ImageConfig)
    (scripts : Dict Script) (fuel : ℕ) where
  -- The machine that is returned is the one that is kept.
  abbrev pub KeptOne : List ℕ → Vm → Host → Type 0
  KeptOne vs vm h = h.vms ≡ vs ++ vm.number ∷ []

  image_of-HasEnded :
      (name : String) (image : Option String) (h : Host)
      → ((i : String) → image ≡ some i → IsGrounded images fuel i)
      → HasEnded (image_of answer elapsed guest storage images scripts fuel name image h)
  image_of-HasEnded name none h g = tt
  image_of-HasEnded name (some i) h g =
      HasEnded-bind (build_image answer elapsed guest storage images scripts fuel i)
        (λ _. exec (pure i)) h
        (build_image-Ends answer elapsed guest storage images scripts fuel i (g i refl) h)
        (λ _ h'. tt)

  module _ (leaves : LeavesVms storage) (vs : List ℕ) where
    image_of-Has :
        (name : String) (image : Option String)
        → Lasts (Has vs) (image_of answer elapsed guest storage images scripts fuel name image)
    image_of-Has name none = λ h e. e
    image_of-Has name (some i) =
        Lasts-bind (Has vs) (build_image answer elapsed guest storage images scripts fuel i)
          (λ _. exec (pure i))
          (build_image-Has answer vs storage leaves elapsed guest images scripts fuel i)
          (λ _ h e. e)

    pub get_vm-KeptOne :
        (local_cfg : VmLocal) (conf : VmConfig) (nets : List String) (h : Host)
        → ((i : String) → given conf.image ≡ some i → IsGrounded images fuel i)
        → Has vs h
        → EndsIn
            (Has vs)
            (KeptOne vs)
            (get_vm answer elapsed guest storage images scripts fuel local_cfg conf nets h)
    unfolding get_vm get_rnd_name
    get_vm-KeptOne local_cfg conf nets h g e =
        EndsIn-bind (Has vs) (Has vs) (KeptOne vs)
          (image_of answer elapsed guest storage images scripts fuel local_cfg.name
            (given conf.image))
          _ h (image_of-Has local_cfg.name (given conf.image))
          (image_of-HasEnded local_cfg.name (given conf.image) h g) e (λ _ e. e)
          λ image h₁ e₁.
            EndsIn-exec (Has vs) (Has vs) (KeptOne vs) (on_runtime (get_rnd_name local_cfg.name 12))
              _ h₁ (λ _ e. e) e₁ (λ _ e. e)
              λ name h₂ e₂.
                EndsIn-exec (Has vs) (Has vs) (KeptOne vs) (storage.clone image name) _ h₂
                  (leaves.clone vs image name) e₂ (λ _ e. e)
                  λ _ h₃ e₃.
                    EndsIn-exec (Has vs) (Has vs) (KeptOne vs) (new_vm conf.memory local_cfg.name) _
                      h₃ (new_vm-Has answer vs conf.memory local_cfg.name) e₃ (λ _ e. e)
                      λ vm h₄ e₄.
                        EndsIn-exec (Has vs) (Has vs) (KeptOne vs) (storage.list_files name) _ h₄
                          (leaves.list_files vs name) e₄ (λ _ e. e)
                          λ files h₅ e₅.
                            EndsIn-exec (Has vs) (Has vs) (KeptOne vs)
                              (connect_all nets (add_disks files (record vm { disks = name ∷ [] })))
                              _ h₅ (connect_all-Has answer vs nets _) e₅ (λ _ e. e)
                              λ netted h₆ e₆.
                                EndsIn-exec (Has vs) (Has vs) (KeptOne vs) (boot answer netted)
                                  (λ _. exec (keep netted)) h₆ (boot-Has answer vs netted) e₆
                                  (λ _ e. e) λ _ h₇ e₇. rw e₇ refl
