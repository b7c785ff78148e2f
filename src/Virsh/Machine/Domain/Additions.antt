-- ===== src/Virsh/Machine/Domain/Additions.antt =====
-- What the description of a machine shows of the files and cards that are added to it.
use rally_ci.Prelude.{
  String, ◌≡◌, refl, ap, sym, ◌∙◌, Option, none, some, List, [], ◌∷◌, ◌++◌, append-nil,
  append_assoc,
}
use rally_ci.Prelude.Dict.{lookup}
use rally_ci.Python.{ok}
use rally_ci.Python.Exec.{Exec, pure, ◌>>=◌}
use rally_ci.Utils.{get_rnd_mac}
use rally_ci.Virsh.Element.{elements}
use rally_ci.Virsh.Remote.{Host}
use rally_ci.Virsh.Machine.{Vm, device_name, add_disk, add_net, on_runtime}
use rally_ci.Virsh.Machine.Domain.Reader.{
  Device, disk, interface, first_with, child, attribute, attribute_in, device_of, read_devices,
  read_devices-append,
}

-- What is added to a machine: a file, or a card on a bridge, with an address or without one
pub data Addition : Type 0 where
  file : String → Addition
  card : String → Option String → Addition

abbrev pub add : Addition → Vm → Exec Host Vm
add (file path) vm = pure (add_disk path vm)
add (card bridge mac) vm = add_net bridge mac vm

unfoldable pub add_all : List Addition → Vm → Exec Host Vm
unfolding add_disk add_net
add_all [] vm = pure vm
add_all (a ∷ rest) vm = add a vm >>= add_all rest

-- The device that an addition asks for; the address of a card that has none, or an empty one, is drawn.
abbrev pub Shows : Addition → Device → Type 0
Shows (file path) d = d ≡ disk (device_name path) path
Shows (card bridge (some (String.◌∷◌ c mac))) d = d ≡ interface bridge (String.◌∷◌ c mac)
Shows (card bridge _) d =
    (h : Host) × (mac : String) × ((on_runtime get_rnd_mac h).0 ≡ ok mac)
    × (d ≡ interface bridge mac)

abbrev pub ShowsAll : List Addition → List Device → Type 0
ShowsAll [] [] = Unit
ShowsAll (a ∷ rest) (d ∷ ds) = Shows a d × ShowsAll rest ds
ShowsAll _ _ = ⊥

abbrev pub macs_of : List Device → List String
macs_of [] = []
macs_of (disk _ _ ∷ ds) = macs_of ds
macs_of (interface bridge mac ∷ ds) = mac ∷ macs_of ds

abbrev pub bridges_of : List Device → List String
bridges_of [] = []
bridges_of (disk _ _ ∷ ds) = bridges_of ds
bridges_of (interface bridge mac ∷ ds) = bridge ∷ bridges_of ds

-- A machine that became another one by the addition of some devices
pub record Grows (vm vm' : Vm) (ds : List Device) : Type 0 where
  pub name : vm'.name ≡ vm.name
  pub memory : vm'.memory ≡ vm.memory
  pub devices : read_devices (elements vm'.devices) ≡ read_devices (elements vm.devices) ++ ds
  pub macs : vm'.macs ≡ vm.macs ++ macs_of ds
  pub bridges : vm'.bridges ≡ vm.bridges ++ bridges_of ds

abbrev Added : Addition → Vm → Host → Type 0
Added a vm h =
    (vm' : Vm) × (h' : Host) × (d : Device) × (add a vm h ≡ (ok vm', h'))
    × Shows a d
    × Grows vm vm' (d ∷ [])

add-Added : (a : Addition) (vm : Vm) (h : Host) → Added a vm h
unfolding add_disk add_net get_rnd_mac read_devices device_of attribute_in child first_with
    attribute lookup elements
add-Added (file path) vm h = (
  _,
  _,
  disk (device_name path) path,
  refl,
  refl,
  record {
    name = refl;
    memory = refl;
    devices = read_devices-append vm.devices _;
    macs = sym (append-nil vm.macs);
    bridges = sym (append-nil vm.bridges);
  },
)
add-Added (card bridge none) vm h = (
  _,
  _,
  interface bridge _,
  refl,
  (h, _, refl, refl),
  record {
    name = refl;
    memory = refl;
    devices = read_devices-append vm.devices _;
    macs = refl;
    bridges = refl;
  },
)
add-Added (card bridge (some String.[])) vm h = (
  _,
  _,
  interface bridge _,
  refl,
  (h, _, refl, refl),
  record {
    name = refl;
    memory = refl;
    devices = read_devices-append vm.devices _;
    macs = refl;
    bridges = refl;
  },
)
add-Added (card bridge (some (String.◌∷◌ c mac))) vm h = (
  _,
  _,
  interface bridge _,
  refl,
  refl,
  record {
    name = refl;
    memory = refl;
    devices = read_devices-append vm.devices _;
    macs = refl;
    bridges = refl;
  },
)

macs_of-append : (ds es : List Device) → macs_of (ds ++ es) ≡ macs_of ds ++ macs_of es
macs_of-append [] es = refl
macs_of-append (disk _ _ ∷ ds) es = macs_of-append ds es
macs_of-append (interface bridge mac ∷ ds) es = ap (λ ms. mac ∷ ms) (macs_of-append ds es)

bridges_of-append : (ds es : List Device) → bridges_of (ds ++ es) ≡ bridges_of ds ++ bridges_of es
bridges_of-append [] es = refl
bridges_of-append (disk _ _ ∷ ds) es = bridges_of-append ds es
bridges_of-append (interface bridge mac ∷ ds) es = ap (λ bs. bridge ∷ bs) (bridges_of-append ds es)

Grows-trans :
    (vm vm' vm'' : Vm) (d : Device) (ds : List Device)
    → Grows vm vm' (d ∷ [])
    → Grows vm' vm'' ds
    → Grows vm vm'' (d ∷ ds)
Grows-trans vm vm' vm'' d ds g g' = record {
  name = g'.name ∙ g.name;
  memory = g'.memory ∙ g.memory;
  devices =
      g'.devices
      ∙ ap (λ xs. xs ++ ds) g.devices
      ∙ append_assoc (read_devices (elements vm.devices)) _ ds;
  macs =
      g'.macs
      ∙ ap (λ xs. xs ++ macs_of ds) g.macs
      ∙ append_assoc vm.macs _ (macs_of ds)
      ∙ ap (λ xs. vm.macs ++ xs) (sym (macs_of-append (d ∷ []) ds));
  bridges =
      g'.bridges
      ∙ ap (λ xs. xs ++ bridges_of ds) g.bridges
      ∙ append_assoc vm.bridges _ (bridges_of ds)
      ∙ ap (λ xs. vm.bridges ++ xs) (sym (bridges_of-append (d ∷ []) ds));
}

pub add_all-Added :
    (xs : List Addition) (vm : Vm) (h : Host)
    → (vm' : Vm) × (ds : List Device) × ((add_all xs vm h).0 ≡ ok vm')
      × ShowsAll xs ds
      × Grows vm vm' ds
unfolding add_all
add_all-Added [] vm h = (
  vm,
  [],
  refl,
  tt,
  record {
    name = refl;
    memory = refl;
    devices = sym (append-nil (read_devices (elements vm.devices)));
    macs = sym (append-nil vm.macs);
    bridges = sym (append-nil vm.bridges);
  },
)
add_all-Added (a ∷ xs) vm h =
    let (vm', h', d, e, shows, grows) = add-Added a vm h in
    let (vm'', ds, e', all, grows') = add_all-Added xs vm' h' in
    (vm'', d ∷ ds, rw e e', (shows, all), Grows-trans vm vm' vm'' d ds grows grows')
