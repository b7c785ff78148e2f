-- ===== src/Virsh/Build/Keeps.antt =====
-- Building an image leaves the list `vms` of the host's machines alone: the machine that plays the
-- build scripts is not put there.
use rally_ci.Prelude.{
  ℕ, zero, suc, String, Bool, true, false, Option, none, some, List, [], ◌∷◌, if◌then◌else◌, ltb,
}
use rally_ci.Prelude.Dict.{Dict, lookup}
use rally_ci.Python.{plain_error, Result, ok, err}
use rally_ci.Python.Exec.{Exec, pure, lift, modify, ◌>>◌}
use rally_ci.Python.Exec.Keeps.{Keeps, Keeps-bind}
use rally_ci.Python.Text.{concat, splitlines}
use rally_ci.Python.Wait.{Wait, exec}
use rally_ci.Python.Wait.Keeps.{Holds, Lasts, Lasts-bind, Lasts-exec, Holds-on_error}
use rally_ci.Config.Data.{Script}
use rally_ci.Utils.{get_rnd_name}
use rally_ci.Job.{or_else, or_key_error}
use rally_ci.Virsh.Config.{ImageConfig}
use rally_ci.Virsh.Remote.{Reply, Host, run_command, judge, is_error, output_of}
use rally_ci.Virsh.Storage.{Storage}
use rally_ci.Virsh.Storage.Keeps.{Has, LeavesVms, Has-command}
use rally_ci.Virsh.Machine.{Vm, new_vm, add_disks, add_net, boot}
use rally_ci.Virsh.Machine.Network.{
  Bridges, destroy_disks, unregister_all, delete_link, delete_links, cleanup_net, destroy, in_use,
}
use rally_ci.Virsh.Machine.Shutdown.{
  asked, matched, got, first_ip, poll_ip, get_ip, poll_off, told, shutdown,
}
use rally_ci.Virsh.Script.{find_address, run_script, script_command}
use rally_ci.Virsh.Build.{
  given, boot_image, run_scripts, build_on, build_image, pause, run_build_scripts, finish, from_url,
  from_parent,
}

module _ (answer : List String → String → Reply) (vs : List ℕ) where
  pub new_vm-Has : (memory : Option ℕ) (name : String) → Keeps (Has vs) (new_vm memory name)
  unfolding new_vm get_rnd_name
  new_vm-Has memory name h e = e

  pub add_net-Has :
      (bridge : String) (mac : Option String) (vm : Vm) → Keeps (Has vs) (add_net bridge mac vm)
  unfolding add_net
  add_net-Has bridge none vm h e = e
  add_net-Has bridge (some String.[]) vm h e = e
  add_net-Has bridge (some (String.◌∷◌ c mac)) vm h e = e

  pub boot-Has : (vm : Vm) → Keeps (Has vs) (boot answer vm)
  unfolding boot
  boot-Has vm =
      Has-command answer vs true _ _ (λ _. Has-command answer vs true _ (λ _. pure tt) (λ _ h e. e))

  delete_links-Has : (d : Bridges) → Keeps (Has vs) (delete_links answer d)
  unfolding delete_links
  delete_links-Has [] = λ h e. e
  delete_links-Has ((br, []) ∷ d) =
      Has-command answer vs true (delete_link br) _ (λ _. delete_links-Has d)
  delete_links-Has ((br, _ ∷ _) ∷ d) = delete_links-Has d

  cleanup_net-Has : Keeps (Has vs) (cleanup_net answer)
  unfolding cleanup_net
  cleanup_net-Has =
      Keeps-bind (Has vs) (λ h. delete_links answer h.br_vm h)
        (λ _. modify (λ h. record h { br_vm = in_use h.br_vm })) (λ h. delete_links-Has h.br_vm h)
        (λ _ h e. e)

  module _ (storage : Storage) (leaves : LeavesVms storage) where
    destroy_disks-Has : (disks : List String) → Keeps (Has vs) (destroy_disks storage disks)
    unfolding destroy_disks
    destroy_disks-Has [] = λ h e. e
    destroy_disks-Has (disk ∷ disks) =
        Keeps-bind (Has vs) (storage.destroy disk) _ (leaves.destroy vs disk)
          (λ _. destroy_disks-Has disks)

    Keeps-if :
        (b : Bool) (m : Exec Host (Unit {0}))
        → Keeps (Has vs) m
        → Keeps (Has vs) (if b then m else pure tt)
    Keeps-if true m k = k
    Keeps-if false m k = λ h e. e

    -- The end of `destroy`
    abbrev off_bridges : Vm → Exec Host (Unit {0})
    off_bridges vm =
        modify (λ h. record h { br_vm = unregister_all vm.number vm.bridges h.br_vm })
        >> cleanup_net answer

    off_bridges-Has : (vm : Vm) → Keeps (Has vs) (off_bridges vm)
    off_bridges-Has vm =
        Keeps-bind (Has vs)
          (modify (λ h. record h { br_vm = unregister_all vm.number vm.bridges h.br_vm }))
          (λ _. cleanup_net answer) (λ h e. e) (λ _. cleanup_net-Has)

    destroy-Has : (b : Bool) (vm : Vm) → Keeps (Has vs) (destroy answer storage b vm)
    unfolding destroy
    destroy-Has b vm =
        Has-command answer vs false (concat ("virsh destroy " ∷ vm.name ∷ []))
          (λ _. (if b then destroy_disks storage vm.disks else pure tt) >> off_bridges vm)
          (λ _.
            Keeps-bind (Has vs) (if b then destroy_disks storage vm.disks else pure tt)
              (λ _. off_bridges vm) (Keeps-if b _ (destroy_disks-Has vm.disks))
              (λ _. off_bridges-Has vm))

    module _ (elapsed : List String → ℕ) where
      asked-Has :
          (n : ℕ) (command : String) (h : Host)
          → Has vs h
          → Has vs (asked answer elapsed n command h).1
      unfolding run_command
      asked-Has n command h e = e

      got-Holds :
          (r : Result String) (h : Host) (rest : Option (Result String × Host))
          → Has vs h
          → Holds (Has vs) rest
          → Holds (Has vs) (got answer elapsed r h rest)
      got-Holds (err x) h rest e l = e
      got-Holds (ok output) h rest e l =
          elim (first_ip (splitlines output))
            as (λ o. Holds (Has vs) (matched answer elapsed o h rest)) [ some ip ↦ e | none ↦ l ]

      poll_ip-Has :
          (fuel deadline : ℕ) (command : String)
          → Lasts (Has vs) (poll_ip answer elapsed fuel deadline command)
      unfolding poll_ip
      poll_ip-Has zero deadline command h e = tt
      poll_ip-Has (suc fuel) deadline command h e =
          elim (ltb deadline h.runtime.clock)
            as (λ late. Holds (Has vs) (elim late [
              | true ↦ some (err plain_error, h)
              | false ↦
                  let (reply, next) = asked answer elapsed 4 command h in
                  got answer elapsed (output_of reply) next
                    (poll_ip answer elapsed fuel deadline command next)
            ])) [
              | true ↦ e
              | false ↦
                  let (reply, next) = asked answer elapsed 4 command h in
                  let kept = asked-Has 4 command h e in
                  got-Holds (output_of reply) next _ kept
                    (poll_ip-Has fuel deadline command next kept)
            ]

      get_ip-Has : (vm : Vm) → Lasts (Has vs) (get_ip answer elapsed 77 300 vm)
      unfolding get_ip
      get_ip-Has vm h = poll_ip-Has 77 _ _ h

      poll_off-Has :
          (fuel timeout : ℕ) (b : Bool) (vm : Vm)
          → Lasts (Has vs) (poll_off answer elapsed fuel timeout storage b vm)
      unfolding poll_off
      poll_off-Has zero timeout b vm h e = tt
      poll_off-Has (suc fuel) timeout b vm h e =
          let command = concat ("virsh list | grep -q " ∷ vm.name ∷ []) in
          let (reply, next) = asked answer elapsed 4 command h in
          let kept = asked-Has 4 command h e in
          elim (is_error reply)
            as (λ gone. Holds (Has vs) (elim gone [
              | true ↦ some (ok tt, next)
              | false ↦ elim (ltb timeout next.runtime.clock) [
                | true ↦ some (destroy answer storage b vm next)
                | false ↦ poll_off answer elapsed fuel timeout storage b vm next
              ]
            ])) [
              | true ↦ kept
              | false ↦
                  elim (ltb timeout next.runtime.clock)
                    as (λ late. Holds (Has vs) (elim late [
                      | true ↦ some (destroy answer storage b vm next)
                      | false ↦ poll_off answer elapsed fuel timeout storage b vm next
                    ])) [
                      | true ↦ destroy-Has b vm next kept
                      | false ↦ poll_off-Has fuel timeout b vm next kept
                    ]
            ]

      told-Holds :
          (r : Result Reply) (h : Host) (rest : Option (Result (Unit {0}) × Host))
          → Has vs h
          → Holds (Has vs) rest
          → Holds (Has vs) (told answer elapsed r h rest)
      told-Holds (err x) h rest e l = e
      told-Holds (ok _) h rest e l = l

      shutdown-Has :
          (fuel timeout : ℕ) (b known : Bool) (guest : Reply) (vm : Vm)
          → Lasts (Has vs) (shutdown answer elapsed fuel timeout storage b known guest vm)
      unfolding shutdown
      shutdown-Has fuel timeout b false guest vm h e = destroy-Has b vm h e
      shutdown-Has fuel timeout b true guest vm h e =
          told-Holds (judge true guest) h _ e (poll_off-Has fuel timeout b vm h e)

      module _ (guest : String → String → Reply) where
        find_address-Has :
            (ip : Option String) (vm : Vm)
            → Lasts (Has vs) (find_address answer elapsed guest ip vm)
        find_address-Has (some ip) vm = λ h e. e
        find_address-Has none vm = get_ip-Has vm

        run_script-Has :
            (env : Dict String) (script : Script) (vm : Vm)
            → Lasts (Has vs) (run_script answer elapsed guest env script vm)
        unfolding run_script
        run_script-Has env script vm =
            Lasts-bind (Has vs) (find_address answer elapsed guest vm.ip vm) _
              (find_address-Has vm.ip vm)
              (λ ip.
                Lasts-exec (Has vs) (lift (judge true (guest ip (script_command env script))))
                  (λ reply. exec (lift (ok (record vm { ip = some ip })))) (λ h e. e)
                  (λ reply h e. e))

        module _ (images : Dict ImageConfig) (scripts : Dict Script) where
          boot_image-Has :
              (name : String)
              → Lasts (Has vs) (boot_image answer elapsed guest storage images scripts name)
          unfolding boot_image
          boot_image-Has name =
              Lasts-exec (Has vs) (lift (or_key_error (lookup name images))) _ (λ h e. e)
                λ conf.
                  Lasts-exec (Has vs) (new_vm conf.memory name) _ (new_vm-Has conf.memory name)
                    λ vm.
                      Lasts-exec (Has vs) (storage.list_files name) _ (leaves.list_files vs name)
                        λ files.
                          Lasts-exec (Has vs)
                            (add_net (or_else conf.build_net "virbr0") none
                              (add_disks files (record vm { disks = name ∷ [] })))
                            _
                            (add_net-Has (or_else conf.build_net "virbr0") none
                              (add_disks files (record vm { disks = name ∷ [] })))
                            λ netted.
                              Lasts-exec (Has vs) (boot answer netted) (λ _. exec (pure netted))
                                (boot-Has netted) λ _ h e. e

          run_scripts-Has :
              (names : List String) (vm : Vm)
              → Lasts (Has vs) (run_scripts answer elapsed guest storage images scripts names vm)
          unfolding run_scripts
          run_scripts-Has [] vm = λ h e. e
          run_scripts-Has (name ∷ names) vm =
              Lasts-exec (Has vs) (lift (or_key_error (lookup name scripts))) _ (λ h e. e)
                λ script.
                  Lasts-bind (Has vs) (run_script answer elapsed guest [] script vm) _
                    (run_script-Has [] script vm) λ known. run_scripts-Has names known

          build_on-Has :
              (names : List String) (vm : Vm)
              → Lasts (Has vs) (build_on answer elapsed guest storage images scripts names vm)
          unfolding build_on
          build_on-Has names vm h e =
              Holds-on_error (Has vs) (destroy answer storage true vm) _ (destroy-Has true vm) (
                Lasts-bind (Has vs)
                  (run_scripts answer elapsed guest storage images scripts names vm) _
                  (run_scripts-Has names vm) (λ used. shutdown-Has 8 30 false _ _ used) h e)

          run_build_scripts-Has :
              (name : String) (names : Option (List String))
              → Lasts
                  (Has vs)
                  (run_build_scripts answer elapsed guest storage images scripts name names)
          run_build_scripts-Has name none = λ h e. e
          run_build_scripts-Has name (some []) = λ h e. e
          run_build_scripts-Has name (some (script ∷ names)) =
              Lasts-bind (Has vs) (boot_image answer elapsed guest storage images scripts name) _
                (boot_image-Has name) (λ vm. build_on-Has (script ∷ names) vm)

          finish-Has :
              (name : String) (names : Option (List String))
              → Lasts (Has vs) (finish answer elapsed guest storage images scripts name names)
          finish-Has name names =
              Lasts-bind (Has vs)
                (run_build_scripts answer elapsed guest storage images scripts name names) _
                (run_build_scripts-Has name names)
                λ _.
                  Lasts-exec (Has vs) (pause 4) (λ _. exec (storage.snapshot name)) (λ h e. e)
                    λ _ h e. leaves.snapshot vs name h e

          from_url-Has :
              (name : String) (conf : ImageConfig) (url : Option String)
              → Lasts (Has vs) (from_url answer elapsed guest storage images scripts name conf url)
          from_url-Has name conf (some url) =
              Lasts-exec (Has vs) (storage.download name url) (λ _. exec (storage.snapshot name))
                (leaves.download vs name url) λ _ h e. leaves.snapshot vs name h e
          from_url-Has name conf none = finish-Has name conf.build_scripts

          from_parent-Has :
              (build : String → Wait Host (Unit {0})) (name : String) (conf : ImageConfig)
              (parent : Option String)
              → ((p : String) → Lasts (Has vs) (build p))
              → Lasts
                  (Has vs)
                  (from_parent answer elapsed guest storage images scripts build name conf parent)
          from_parent-Has build name conf none b = from_url-Has name conf (given conf.url)
          from_parent-Has build name conf (some p) b = Lasts-bind (Has vs) (build p) _ (b p) λ _.
              Lasts-exec (Has vs) (storage.clone p name) _ (leaves.clone vs p name)
                λ _. finish-Has name conf.build_scripts

          Lasts-if :
              (b : Bool) (m : Wait Host (Unit {0}))
              → Lasts (Has vs) m
              → Lasts (Has vs) (if b then exec (pure tt) else m)
          Lasts-if true m l = λ h e. e
          Lasts-if false m l = l

          pub build_image-Has :
              (fuel : ℕ) (name : String)
              → Lasts (Has vs) (build_image answer elapsed guest storage images scripts fuel name)
          unfolding build_image
          build_image-Has zero name = λ h e. tt
          build_image-Has (suc fuel) name =
              Lasts-exec (Has vs) (storage.exist name) _ (leaves.exist vs name) λ exists.
                Lasts-if exists _ (
                  Lasts-exec (Has vs) (lift (or_key_error (lookup name images))) _ (λ h e. e)
                    λ conf. from_parent-Has _ name conf (given conf.parent) (build_image-Has fuel))
