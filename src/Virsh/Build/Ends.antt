-- ===== src/Virsh/Build/Ends.antt =====
-- Building an image ends where no image is its own ancestor.
use rally_ci.Prelude.{
  ℕ, zero, suc, String, ◌≡◌, refl, Bool, true, false, Option, none, some, List, [], ◌∷◌,
  if◌then◌else◌,
}
use rally_ci.Prelude.Dict.{Dict, lookup}
use rally_ci.Python.{Result, ok}
use rally_ci.Python.Exec.{pure, lift}
use rally_ci.Python.Wait.{Wait, exec, ◌>>=◌}
use rally_ci.Python.Wait.Ends.{HasEnded, Ends, Ends-bind, Ends-exec, HasEnded-on_error}
use rally_ci.Config.Data.{Script}
use rally_ci.Job.{or_else, or_key_error}
use rally_ci.Virsh.Config.{ImageConfig}
use rally_ci.Virsh.Remote.{Reply, Host, judge}
use rally_ci.Virsh.Storage.{Storage}
use rally_ci.Virsh.Machine.{Vm, new_vm, add_disks, add_net, boot}
use rally_ci.Virsh.Machine.Network.{destroy}
use rally_ci.Virsh.Machine.Shutdown.Ends.{Ended, get_ip-Ended}
use rally_ci.Virsh.Machine.Shutdown.Off.{shutdown-HasEnded}
use rally_ci.Virsh.Script.{run_script, find_address, script_command}
use rally_ci.Virsh.Build.{
  given, boot_image, run_scripts, build_on, build_image, pause, is_known, run_build_scripts, finish,
  from_url, from_parent,
}

HasEnded-Ended : {deadline : ℕ} (o : Option (Result String × Host)) → Ended deadline o → HasEnded o
HasEnded-Ended none e = elim e [ ]
HasEnded-Ended (some _) e = tt

-- The ancestors of an image, and itself, are at most `n`.
unfoldable pub IsGrounded : Dict ImageConfig → ℕ → String → Type 0
IsGrounded images zero name = ⊥
IsGrounded images (suc n) name =
    (conf : ImageConfig) (parent : String)
    → lookup name images ≡ some conf
    → given conf.parent ≡ some parent
    → IsGrounded images n parent

module _ (images : Dict ImageConfig) (n : ℕ) (name : String) (conf : ImageConfig) where
  pub IsGrounded-root :
      lookup name images ≡ some conf → given conf.parent ≡ none → IsGrounded images (suc n) name
  unfolding IsGrounded
  IsGrounded-root e none_given conf' parent e' given' = absurd cc

  pub IsGrounded-child :
      (parent : String)
      → lookup name images ≡ some conf
      → given conf.parent ≡ some parent
      → IsGrounded images n parent
      → IsGrounded images (suc n) name
  unfolding IsGrounded
  IsGrounded-child parent e given_parent g conf' parent' e' given' =
      let same : parent ≡ parent' = cc in rw (← same) g

module _ (answer : List String → String → Reply) (elapsed : List String → ℕ)
    (guest : String → String → Reply) where
  find_address-Ends :
      (ip : Option String) (vm : Vm) → Ends (find_address answer elapsed guest ip vm)
  find_address-Ends (some ip) vm h = tt
  find_address-Ends none vm h = HasEnded-Ended _ (get_ip-Ended answer elapsed vm h)

  run_script-Ends :
      (env : Dict String) (script : Script) (vm : Vm)
      → Ends (run_script answer elapsed guest env script vm)
  unfolding run_script
  run_script-Ends env script vm =
      Ends-bind (find_address answer elapsed guest vm.ip vm) _ (find_address-Ends vm.ip vm) λ ip.
        Ends-exec (lift (judge true (guest ip (script_command env script))))
          (λ reply. exec (lift (ok (record vm { ip = some ip })))) λ reply h. tt

  module _ (storage : Storage) (images : Dict ImageConfig) (scripts : Dict Script) where
    boot_image-Ends :
        (name : String) → Ends (boot_image answer elapsed guest storage images scripts name)
    unfolding boot_image
    boot_image-Ends name = Ends-exec (lift (or_key_error (lookup name images))) _ λ conf.
        Ends-exec (new_vm conf.memory name) _ λ vm. Ends-exec (storage.list_files name) _ λ files.
          Ends-exec
            (add_net (or_else conf.build_net "virbr0") none
              (add_disks files (record vm { disks = name ∷ [] })))
            _ λ netted. Ends-exec (boot answer netted) (λ _. exec (pure netted)) λ _ h. tt

    run_scripts-Ends :
        (names : List String) (vm : Vm)
        → Ends (run_scripts answer elapsed guest storage images scripts names vm)
    unfolding run_scripts
    run_scripts-Ends [] vm = λ h. tt
    run_scripts-Ends (name ∷ names) vm =
        Ends-exec (lift (or_key_error (lookup name scripts))) _ λ script.
          Ends-bind (run_script answer elapsed guest [] script vm) _ (run_script-Ends [] script vm)
            λ known. run_scripts-Ends names known

    build_on-Ends :
        (names : List String) (vm : Vm)
        → Ends (build_on answer elapsed guest storage images scripts names vm)
    unfolding build_on
    build_on-Ends names vm h = HasEnded-on_error (destroy answer storage true vm) _ (
        Ends-bind (run_scripts answer elapsed guest storage images scripts names vm) _
          (run_scripts-Ends names vm)
          (λ used.
            shutdown-HasEnded answer elapsed storage false
              (is_known answer elapsed guest storage images scripts used.ip) _ used)
          h)

    run_build_scripts-Ends :
        (name : String) (names : Option (List String))
        → Ends (run_build_scripts answer elapsed guest storage images scripts name names)
    run_build_scripts-Ends name none = λ h. tt
    run_build_scripts-Ends name (some []) = λ h. tt
    run_build_scripts-Ends name (some (script ∷ names)) =
        Ends-bind (boot_image answer elapsed guest storage images scripts name) _
          (boot_image-Ends name) λ vm. build_on-Ends (script ∷ names) vm

    finish-Ends :
        (name : String) (names : Option (List String))
        → Ends (finish answer elapsed guest storage images scripts name names)
    finish-Ends name names =
        Ends-bind (run_build_scripts answer elapsed guest storage images scripts name names) _
          (run_build_scripts-Ends name names)
          λ _. Ends-exec (pause 4) (λ _. exec (storage.snapshot name)) λ _ h. tt

    from_url-Ends :
        (name : String) (conf : ImageConfig) (url : Option String)
        → Ends (from_url answer elapsed guest storage images scripts name conf url)
    from_url-Ends name conf (some url) =
        Ends-exec (storage.download name url) (λ _. exec (storage.snapshot name)) λ _ h. tt
    from_url-Ends name conf none = finish-Ends name conf.build_scripts

    from_parent-Ends :
        (build : String → Wait Host (Unit {0})) (name : String) (conf : ImageConfig)
        (parent : Option String)
        → ((p : String) → parent ≡ some p → Ends (build p))
        → Ends (from_parent answer elapsed guest storage images scripts build name conf parent)
    from_parent-Ends build name conf none built = from_url-Ends name conf (given conf.url)
    from_parent-Ends build name conf (some p) built =
        Ends-bind (build p) _ (built p refl)
          λ _. Ends-exec (storage.clone p name) _ λ _. finish-Ends name conf.build_scripts

    missing-Ends :
        (build : String → Wait Host (Unit {0})) (name : String) (found : Option ImageConfig)
        → ((conf : ImageConfig) (p : String)
            → found ≡ some conf
            → given conf.parent ≡ some p
            → Ends (build p))
        → Ends (
            exec (lift (or_key_error found)) >>= λ conf.
            from_parent answer elapsed guest storage images scripts build name conf
              (given conf.parent))
    missing-Ends build name none built = λ h. tt
    missing-Ends build name (some conf) built =
        from_parent-Ends build name conf (given conf.parent) (λ p e. built conf p refl e)

    if-Ends :
        (b : Bool) (m : Wait Host (Unit {0})) → Ends m → Ends (if b then exec (pure tt) else m)
    if-Ends true m e = λ h. tt
    if-Ends false m e = e

    -- If an image has no more than `n` ancestors, itself included, then building it ends on that fuel,
    -- whatever the host, the machines and the storage do.
    pub build_image-Ends :
        (n : ℕ) (name : String)
        → IsGrounded images n name
        → Ends (build_image answer elapsed guest storage images scripts n name)
    unfolding build_image IsGrounded
    build_image-Ends zero name g = elim g [ ]
    build_image-Ends (suc n) name g = Ends-exec (storage.exist name) _ λ exists. if-Ends exists _ (
        missing-Ends _ name (lookup name images)
          (λ conf p e e'. build_image-Ends n p (g conf p e e')))
