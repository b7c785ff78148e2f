-- ===== src/Virsh/Host.antt =====
-- `Host._get_vm` and `Host.get_vms`: the machines of a job, on the bridges that they share.
pub mod Nets
pub mod Keeps
pub mod Kept
mod Tests
use rally_ci.Prelude.{
  ℕ, suc, String, ◌==◌, Bool, true, false, Option, none, some, List, [], ◌∷◌, ◌++◌, eqb,
  if◌then◌else◌,
}
use Prim.Native.Char.{code}
use rally_ci.Prelude.Dict.{Dict, lookup, insert}
use rally_ci.Python.{Result, ok, err}
use rally_ci.Python.Exec.{Exec, pure, lift}
use rally_ci.Python.Exec as Exec
use rally_ci.Python.Wait.{Wait, exec, ◌>>=◌, ◌>>◌}
use rally_ci.Python.Text.{join, split}
use rally_ci.Config.Data.{Script, VmLocal}
use rally_ci.Utils.{get_rnd_name}
use rally_ci.Job.{or_key_error}
use rally_ci.Virsh.Config.{ImageConfig, VmConfig}
use rally_ci.Virsh.Remote.{Reply, Host}
use rally_ci.Virsh.Storage.{Storage}
use rally_ci.Virsh.Bridge.{get_bridge}
use rally_ci.Virsh.Machine.{Vm, on_runtime, new_vm, add_disks, add_net, boot}
use rally_ci.Virsh.Machine.Network.{Bridges, same_bridge}
use rally_ci.Virsh.Build.{given, build_image}

-- `name.endswith("%")`, and `name[:-1]` if so
unfoldable pub dynamic : String → Option String
dynamic String.[] = none
dynamic (String.◌∷◌ c String.[]) = if eqb (code c) b'%' then some "" else none
dynamic (String.◌∷◌ c (String.◌∷◌ d s)) = elim (dynamic (String.◌∷◌ d s)) [
  | none ↦ none
  | some t ↦ some (String.◌∷◌ c t)
]

-- `ifname`: the parts of a network's entry, the name first.
abbrev pub name_in : List String → String
name_in [] = ""
name_in (name ∷ _) = name

abbrev pub renamed : String → List String → List String
renamed br [] = []
renamed br (_ ∷ rest) = br ∷ rest

-- `ifs`, and `br`, as a network's entry leaves them, and the entry with the bridge's name.
pub record Named : Type 0 where
  pub ifs : Dict String
  pub br : Option String
  pub net : String

module _ (answer : List String → String → Reply) where
  abbrev pub bridge_for :
      Option String → String → String → Dict String → Exec Host (String × Dict String)
  bridge_for (some br) prefix name ifs h = (ok (br, ifs), h)
  bridge_for none prefix name ifs h =
      Exec.◌>>=◌ (get_bridge answer prefix) (λ br. pure (br, insert name br ifs)) h

  -- The body of the loop over `conf["net"]`
  abbrev pub name_parts :
      Option String → Dict String → Option String → List String → Exec Host Named
  name_parts none ifs br parts = pure (record { ifs = ifs; br = br; net = join " " parts })
  name_parts (some prefix) ifs br parts =
      Exec.◌>>=◌ (bridge_for (lookup (name_in parts) ifs) prefix (name_in parts) ifs)
        (λ (made, ifs').
          pure (record { ifs = ifs'; br = some made; net = join " " (renamed made parts) }))

  unfoldable pub name_net : Dict String → Option String → String → Exec Host Named
  unfolding get_bridge split join dynamic
  name_net ifs br net =
      let parts = split b' ' net in name_parts (dynamic (name_in parts)) ifs br parts

  unfoldable pub name_nets :
      Dict String
      → Option String
      → List String
      → Exec Host (Dict String × Option String × List String)
  unfolding name_net
  name_nets ifs br [] = pure (ifs, br, [])
  name_nets ifs br (net ∷ nets) = Exec.◌>>=◌ (name_net ifs br net) (λ n.
      Exec.◌>>=◌ (name_nets n.ifs n.br nets)
        (λ (ifs', br', named). pure (ifs', br', n.net ∷ named)))

-- `br_vm.setdefault(br, [])` and `br_vm[br].append(vm)`
unfoldable pub register : Option String → ℕ → Bridges → Bridges
register br n [] = (br, n ∷ []) ∷ []
register br n ((k, l) ∷ d) =
    let rest = register br n d in if same_bridge k br then (k, l ++ n ∷ []) ∷ d else (k, l) ∷ rest

-- An entry of `conf["net"]`, in `_get_vm`
unfoldable pub connect : List String → Vm → Exec Host Vm
unfolding add_net
connect [] vm = add_net "" none vm
connect (name ∷ []) vm = add_net name none vm
connect (name ∷ mac ∷ _) vm = add_net name (some mac) vm

unfoldable pub connect_all : List String → Vm → Exec Host Vm
unfolding connect split
connect_all [] vm = pure vm
connect_all (net ∷ nets) vm = Exec.◌>>=◌ (connect (split b' ' net) vm) (λ v. connect_all nets v)

-- `self.vms.append(vm)`
abbrev pub keep : Vm → Exec Host Vm
keep vm h = (ok vm, record h { vms = h.vms ++ vm.number ∷ [] })

unfoldable pub put_on : Option String → Vm → Exec Host (Unit {0})
unfolding register
put_on br vm h = (ok tt, record h { br_vm = register br vm.number h.br_vm })

module _ (answer : List String → String → Reply) (elapsed : List String → ℕ)
    (guest : String → String → Reply) (storage : Storage) (images : Dict ImageConfig)
    (scripts : Dict Script) where
  -- `image` is the image that is cloned; it is built first if the config names it.
  abbrev pub image_of : ℕ → String → Option String → Wait Host String
  image_of fuel name none = exec (pure name)
  image_of fuel name (some image) = do
    build_image answer elapsed guest storage images scripts fuel image
    exec (pure image)

  -- `nets` are the entries of `conf["net"]` with the bridges' names.
  unfoldable pub get_vm : ℕ → VmLocal → VmConfig → List String → Wait Host Vm
  unfolding build_image new_vm connect_all boot get_rnd_name
  get_vm fuel local_cfg conf nets = do
    image ← image_of fuel local_cfg.name (given conf.image)
    rnd_name ← exec (on_runtime (get_rnd_name local_cfg.name 12))
    exec (storage.clone image rnd_name)
    vm ← exec (new_vm conf.memory local_cfg.name)
    files ← exec (storage.list_files rnd_name)
    netted ← exec (connect_all nets (add_disks files (record vm { disks = rnd_name ∷ [] })))
    exec (boot answer netted)
    exec (keep netted)

  -- The loop over the machines: `ifs` is shared by them all, and each is registered on the bridge that
  -- its last dynamic network is on, or on `None`.
  unfoldable pub get_vms : ℕ → Dict VmConfig → Dict String → List VmLocal → Wait Host (List Vm)
  unfolding get_vm name_nets
  get_vms fuel confs ifs [] = exec (pure [])
  get_vms fuel confs ifs (local_cfg ∷ rest) = do
    conf ← exec (lift (or_key_error (lookup local_cfg.name confs)))
    nets ← exec (lift (or_key_error conf.net))
    (ifs', br, named) ← exec (name_nets answer ifs none nets)
    vm ← get_vm fuel local_cfg conf named
    exec (put_on br vm)
    vms ← get_vms fuel confs ifs' rest
    exec (pure (vm ∷ vms))
