-- ===== src/Virsh/Machine/Domain/Reader.antt =====
-- A reader of the description of a domain.
use rally_ci.Prelude.{
  String, ◌==◌, ◌≡◌, refl, Option, none, some, List, [], ◌∷◌, ◌++◌, append_assoc, if◌then◌else◌,
}
use rally_ci.Prelude.Dict.{lookup}
use rally_ci.Virsh.Element.{Element, Elements, element, cons, nil, elements}

-- A file with its device name, or a bridge with the address of the card
pub data Device : Type 0 where
  disk : String → String → Device
  interface : String → String → Device

unfoldable pub first_with : String → Elements → Option Element
first_with tag nil = none
first_with tag (cons (element t attributes text ys) xs) =
    if t == tag then some (element t attributes text ys) else first_with tag xs

-- The first sub-element with a tag
unfoldable pub child : String → Element → Option Element
unfolding first_with
child tag (element _ _ _ xs) = first_with tag xs

unfoldable pub attribute : String → Element → Option String
unfolding lookup
attribute k (element _ attributes _ _) = lookup k attributes

unfoldable pub text_in : String → Element → Option String
unfolding child
text_in tag x = elim (child tag x) [ some (element _ _ text _) ↦ some text | none ↦ none ]

-- An attribute of the first sub-element with a tag
unfoldable pub attribute_in : String → String → Element → Option String
unfolding child attribute
attribute_in tag k x = elim (child tag x) [ some y ↦ attribute k y | none ↦ none ]

abbrev both : (String → String → Device) → Option String → Option String → List Device
both make (some a) (some b) = make a b ∷ []
both make _ _ = []

unfoldable pub device_of : Element → List Device
unfolding attribute_in
device_of (element tag attributes text ys) =
    let x = element tag attributes text ys in
    if tag == "disk"
    then both disk (attribute_in "target" "dev" x) (attribute_in "source" "file" x)
    else if tag == "interface"
    then both interface (attribute_in "source" "bridge" x) (attribute_in "mac" "address" x)
    else []

-- The disks and network cards among some elements, in order
unfoldable pub read_devices : Elements → List Device
unfolding device_of
read_devices nil = []
read_devices (cons x xs) = device_of x ++ read_devices xs

unfoldable pub devices_of : Element → List Device
unfolding child read_devices
devices_of x = elim (child "devices" x) [ some (element _ _ _ xs) ↦ read_devices xs | none ↦ [] ]

pub read_devices-append :
    (xs ys : List Element)
    → read_devices (elements (xs ++ ys)) ≡ read_devices (elements xs) ++ read_devices (elements ys)
unfolding read_devices elements
read_devices-append [] ys = refl
read_devices-append (x ∷ xs) ys = rw (read_devices-append xs ys) (simp append_assoc)
