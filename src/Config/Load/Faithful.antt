-- ===== src/Config/Load/Faithful.antt =====
-- What `load` puts where, against a reading of the file that makes no table.
use rally_ci.Prelude.{
  String, ◌≡◌, Bool, false, ◌&&◌, Option, none, some, List, [], ◌∷◌, ◌++◌, ◌==◌, if◌then◌else◌,
  arith, eq_iff,
}
use rally_ci.Prelude.Dict.{Dict, lookup, insert, lookup-insert}
use rally_ci.Python.{Result, ok, ◌>>=◌, >>=-eq-ok}
use rally_ci.Python.Value.{Value, null, get}
use rally_ci.Config.Load.{
  Name, same_name, Section, named, unnamed, Item, find, name_of, add_entry, load_item, load_from,
  load,
}

-- `config.data[key][name]`, `none` where that raises.
abbrev pub in_section : Name → Option Section → Option Value
in_section n none = none
in_section n (some (named d)) = find n d
in_section n (some (unnamed l)) = none

abbrev pub configured : String → Name → Dict Section → Option Value
configured key n sections = in_section n (lookup key sections)

abbrev pub name_here : Value → Result (Option Name)
name_here v = do raw_name ← get v "name" null; name_of raw_name

abbrev pub is_named : Name → Result (Option Name) → Bool
is_named n (ok (some m)) = same_name m n
is_named n _ = false

-- Does the item declare `name` in section `key`, and as what?
abbrev pub declares : String → Name → Item → Option Value
declares key n ((k, v) ∷ []) = if (k == key) && is_named n (name_here v) then some v else none
declares key n _ = none

abbrev pub first : Option Value → Option Value → Option Value
first (some v) o = some v
first none o = o

-- The first item of the file that declares `name` in section `key`.
abbrev pub declared : String → Name → List Item → Option Value
declared key n [] = none
declared key n (item ∷ items) = first (declares key n item) (declared key n items)

find-append :
    (n m : Name) (v : Value) (d : List (Name × Value))
    → find n (d ++ (m, v) ∷ []) ≡ first (find n d) (if same_name m n then some v else none)
unfolding find
find-append n m v [] = ground arith
find-append n m v ((k, w) ∷ d) = ground (arith, find-append n m v d)

in_section-add_entry :
    (m : Option Name) (v : Value) (old : Option Section) (new : Section) (n : Name)
    → add_entry m v old ≡ ok new
    → in_section n (some new)
      ≡ first (in_section n old) (if is_named n (ok m) then some v else none)
unfolding add_entry find
in_section-add_entry (some m) v none new n h = ground arith
in_section-add_entry (some m) v (some (named d)) new n h = ground (arith, find-append n m v d)
in_section-add_entry (some m) v (some (unnamed l)) new n h = cc
in_section-add_entry none v none new n h = ground arith
in_section-add_entry none v (some (named d)) new n h = cc
in_section-add_entry none v (some (unnamed l)) new n h = ground arith

-- What a successful round did.
pub record Added (sections next : Dict Section) (k : String) (v : Value) : Type 0 where
  pub name : Option Name
  pub named_so : name_here v ≡ ok name
  pub section : Section
  pub entered : add_entry name v (lookup k sections) ≡ ok section
  pub stored : next ≡ insert k section sections

pub load_item-Added :
    (sections next : Dict Section) (k : String) (v : Value)
    → load_item sections ((k, v) ∷ []) ≡ ok next
    → Added sections next k v
unfolding load_item
load_item-Added sections next k v h =
    let (raw, e₀, h₀) = >>=-eq-ok (get v "name" null) _ h in
    let (name, e₁, h₁) = >>=-eq-ok (name_of raw) _ h₀ in
    let (section, e₂, h₂) = >>=-eq-ok (add_entry name v (lookup k sections)) _ h₁ in
    record {
      name = name;
      named_so = rw e₀ e₁;
      section = section;
      entered = e₂;
      stored = ground arith;
    }

configured-Added :
    {sections next : Dict Section} {k : String} {v : Value} (key : String) (n : Name)
    → Added sections next k v
    → configured key n next
      ≡ first
          (configured key n sections)
          (if (k == key) && is_named n (name_here v) then some v else none)
configured-Added {sections} {next} {k} {v} key n a = rw a.named_so (
    ground (
      arith,
      a.stored,
      eq_iff k key,
      lookup-insert k key a.section sections,
      in_section-add_entry a.name v (lookup k sections) a.section n a.entered,
    ))

-- One entry changes the lookups of its own section and name alone.
pub configured-load_item :
    (sections next : Dict Section) (item : Item) (key : String) (n : Name)
    → load_item sections item ≡ ok next
    → configured key n next ≡ first (configured key n sections) (declares key n item)
configured-load_item sections next [] key n h = unfold load_item in cc
configured-load_item sections next ((k, v) ∷ []) key n h =
    configured-Added key n (load_item-Added sections next k v h)
configured-load_item sections next (_ ∷ _ ∷ _) key n h = unfold load_item in cc

configured-load_from :
    (sections final : Dict Section) (items : List Item) (key : String) (n : Name)
    → load_from sections items ≡ ok final
    → configured key n final ≡ first (configured key n sections) (declared key n items)
unfolding load_from
configured-load_from sections final [] key n h = ground arith
configured-load_from sections final (item ∷ items) key n h =
    let (next, e, h') = >>=-eq-ok (load_item sections item) _ h in
    ground (
      arith,
      configured-load_item sections next item key n e,
      configured-load_from next final items key n h',
    )

-- If the file loads, then looking a name up in a section finds the value of the first item that
-- declares the name in that section, and finds nothing if no item does.
pub configured-load :
    (items : List Item) (sections : Dict Section) (key : String) (n : Name)
    → load items ≡ ok sections
    → configured key n sections ≡ declared key n items
unfolding load lookup
configured-load items sections key n h = configured-load_from [] sections items key n h
