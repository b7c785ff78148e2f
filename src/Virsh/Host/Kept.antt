-- ===== src/Virsh/Host/Kept.antt =====
-- The machines that `Host.get_vms` makes are those that the host keeps in `vms`.
use rally_ci.Prelude.{
  ℕ, suc, ◌<◌, String, ◌≡◌, refl, Option, none, some, List, [], ◌∷◌, ◌++◌, map, length,
  append_assoc, append-nil, ◌∙◌, sym, arith,
}
use rally_ci.Prelude.Dict.{Dict, lookup}
use rally_ci.Python.Exec.{pure, lift}
use rally_ci.Python.Wait.{Wait, exec, ◌>>=◌, ◌>>◌}
use rally_ci.Python.Wait.Keeps.{EndsIn, EndsIn-exec, EndsIn-resume}
use rally_ci.Config.Data.{Script, VmLocal}
use rally_ci.Job.{or_key_error}
use rally_ci.Virsh.Config.{ImageConfig, VmConfig}
use rally_ci.Virsh.Remote.{Reply, Host}
use rally_ci.Virsh.Storage.{Storage}
use rally_ci.Virsh.Storage.Keeps.{Has, LeavesVms}
use rally_ci.Virsh.Machine.{Vm}
use rally_ci.Virsh.Host.Keeps.{KeptOne, AreGrounded, name_nets-Has, get_vm-KeptOne}
use rally_ci.Virsh.Host.{name_nets, put_on, get_vm, get_vms}

-- Fewer machines are kept than are asked for.
abbrev pub Lacks : List ℕ → ℕ → Host → Type 0
Lacks vs n h = (made : List ℕ) × (h.vms ≡ vs ++ made) × (length made < n)

-- The machines that are returned are those that are kept, one for each that is asked for.
abbrev pub KeptAll : List ℕ → ℕ → List Vm → Host → Type 0
KeptAll vs n vms h = (h.vms ≡ vs ++ map (λ vm. vm.number) vms) × (length vms ≡ n)

Lacks-none : (vs : List ℕ) (n : ℕ) (h : Host) → Has vs h → Lacks vs (suc n) h
Lacks-none vs n h e = ([], e ∙ sym (append-nil vs), omega arith)

Lacks-one : (vs : List ℕ) (x n : ℕ) (h : Host) → Lacks (vs ++ x ∷ []) n h → Lacks vs (suc n) h
Lacks-one vs x n h (made, e, lt) = (x ∷ made, e ∙ append_assoc vs (x ∷ []) made, omega arith)

KeptAll-one :
    (vs : List ℕ) (n : ℕ) (vm : Vm) (vms : List Vm) (h : Host)
    → KeptAll (vs ++ vm.number ∷ []) n vms h
    → KeptAll vs (suc n) (vm ∷ vms) h
KeptAll-one vs n vm vms h (e, l) = (e ∙ append_assoc vs (vm.number ∷ []) _, omega arith)

module _ (answer : List String → String → Reply) (elapsed : List String → ℕ)
    (guest : String → String → Reply) (storage : Storage) (images : Dict ImageConfig)
    (scripts : Dict Script) (fuel : ℕ) (confs : Dict VmConfig) (leaves : LeavesVms storage)
    (grounded : AreGrounded fuel images confs) where
  -- After the machine was made
  kept-EndsIn :
      (br : Option String) (vm : Vm) (ifs : Dict String) (rest : List VmLocal) (vs : List ℕ)
      (h : Host)
      → KeptOne answer elapsed guest storage images scripts fuel vs vm h
      → ((h' : Host)
          → Has (vs ++ vm.number ∷ []) h'
          → EndsIn
              (Lacks (vs ++ vm.number ∷ []) (length rest))
              (KeptAll (vs ++ vm.number ∷ []) (length rest))
              (get_vms answer elapsed guest storage images scripts fuel confs ifs rest h'))
      → EndsIn (Lacks vs (suc (length rest))) (KeptAll vs (suc (length rest))) (
          (exec (put_on br vm) >>= λ _.
          get_vms answer elapsed guest storage images scripts fuel confs ifs rest >>= λ vms.
          exec (pure (vm ∷ vms)))
            h)
  unfolding put_on
  kept-EndsIn br vm ifs rest vs h e ends =
      EndsIn-resume (Lacks (vs ++ vm.number ∷ []) (length rest)) (Lacks vs (suc (length rest)))
        (KeptAll (vs ++ vm.number ∷ []) (length rest)) (KeptAll vs (suc (length rest)))
        (get_vms answer elapsed guest storage images scripts fuel confs ifs rest _)
        (λ vms. exec (pure (vm ∷ vms))) (ends _ e) (Lacks-one vs vm.number (length rest))
        (KeptAll-one vs (length rest) vm)

  -- What `get_vms` does once the config of a machine is found.
  abbrev made_for : Dict String → VmLocal → List VmLocal → VmConfig → Wait Host (List Vm)
  made_for ifs local_cfg rest conf = do
    nets ← exec (lift (or_key_error conf.net))
    (ifs', br, named) ← exec (name_nets answer ifs none nets)
    vm ← get_vm answer elapsed guest storage images scripts fuel local_cfg conf named
    exec (put_on br vm)
    vms ← get_vms answer elapsed guest storage images scripts fuel confs ifs' rest
    exec (pure (vm ∷ vms))

  made_for-EndsIn :
      (ifs : Dict String) (local_cfg : VmLocal) (rest : List VmLocal) (conf : VmConfig)
      (vs : List ℕ) (h : Host)
      → lookup local_cfg.name confs ≡ some conf
      → Has vs h
      → ((ifs' : Dict String) (vs' : List ℕ) (h' : Host)
          → Has vs' h'
          → EndsIn
              (Lacks vs' (length rest))
              (KeptAll vs' (length rest))
              (get_vms answer elapsed guest storage images scripts fuel confs ifs' rest h'))
      → EndsIn
          (Lacks vs (suc (length rest)))
          (KeptAll vs (suc (length rest)))
          (made_for ifs local_cfg rest conf h)
  made_for-EndsIn ifs local_cfg rest conf vs h f e ends =
      let n = length rest in
      EndsIn-exec (Has vs) (Lacks vs (suc n)) (KeptAll vs (suc n)) (lift (or_key_error conf.net)) _
        h (λ _ e. e) e (Lacks-none vs n)
        λ nets h₁ e₁.
          EndsIn-exec (Has vs) (Lacks vs (suc n)) (KeptAll vs (suc n))
            (name_nets answer ifs none nets) _ h₁ (name_nets-Has answer vs ifs none nets) e₁
            (Lacks-none vs n)
            λ named h₂ e₂.
              EndsIn-resume (Has vs) (Lacks vs (suc n))
                (KeptOne answer elapsed guest storage images scripts fuel vs) (KeptAll vs (suc n))
                (get_vm answer elapsed guest storage images scripts fuel local_cfg conf named.2 h₂)
                _
                (get_vm-KeptOne answer elapsed guest storage images scripts fuel leaves vs local_cfg
                  conf named.2 h₂ (λ i g. grounded local_cfg.name i conf f g) e₂)
                (Lacks-none vs n)
                (λ vm h₃ e₃. kept-EndsIn named.1 vm named.0 rest vs h₃ e₃ (ends named.0 _))

  found-EndsIn :
      (ifs : Dict String) (local_cfg : VmLocal) (rest : List VmLocal) (found : Option VmConfig)
      (vs : List ℕ) (h : Host)
      → lookup local_cfg.name confs ≡ found
      → Has vs h
      → ((ifs' : Dict String) (vs' : List ℕ) (h' : Host)
          → Has vs' h'
          → EndsIn
              (Lacks vs' (length rest))
              (KeptAll vs' (length rest))
              (get_vms answer elapsed guest storage images scripts fuel confs ifs' rest h'))
      → EndsIn
          (Lacks vs (suc (length rest)))
          (KeptAll vs (suc (length rest)))
          ((exec (lift (or_key_error found)) >>= made_for ifs local_cfg rest) h)
  found-EndsIn ifs local_cfg rest none vs h f e ends = Lacks-none vs (length rest) h e
  found-EndsIn ifs local_cfg rest (some conf) vs h f e ends =
      made_for-EndsIn ifs local_cfg rest conf vs h f e ends

  after-EndsIn :
      (ifs : Dict String) (vm_confs : List VmLocal) (vs : List ℕ) (h : Host)
      → Has vs h
      → EndsIn
          (Lacks vs (length vm_confs))
          (KeptAll vs (length vm_confs))
          (get_vms answer elapsed guest storage images scripts fuel confs ifs vm_confs h)
  unfolding get_vms
  after-EndsIn ifs [] vs h e = (e ∙ sym (append-nil vs), refl)
  after-EndsIn ifs (local_cfg ∷ rest) vs h e =
      found-EndsIn ifs local_cfg rest (lookup local_cfg.name confs) vs h refl e
        (λ ifs' vs' h' e'. after-EndsIn ifs' rest vs' h' e')

  -- If no image of a configured machine has more than `fuel` ancestors, itself included, and the storage
  -- leaves the list `vms` of the host alone, then `get_vms` ends. It returns one machine for each that is
  -- asked for, and these, in order, are what was added to `vms`; or it raises, and then fewer were
  -- added.
  pub get_vms-KeptAll :
      (vm_confs : List VmLocal) (h : Host)
      → EndsIn
          (Lacks h.vms (length vm_confs))
          (KeptAll h.vms (length vm_confs))
          (get_vms answer elapsed guest storage images scripts fuel confs [] vm_confs h)
  get_vms-KeptAll vm_confs h = after-EndsIn [] vm_confs h.vms h refl
