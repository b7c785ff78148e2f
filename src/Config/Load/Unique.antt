-- ===== src/Config/Load/Unique.antt =====
-- How often a file that loads may declare a name.
use rally_ci.Prelude.{
  ℕ, ◌+◌, ◌≤◌, String, ◌≡◌, refl, true, Option, none, some, List, [], ◌∷◌, arith, eq_iff, ap,
}
use rally_ci.Prelude.Dict.{Dict, lookup}
use rally_ci.Python.{ok, >>=-eq-ok}
use rally_ci.Python.Value.{Value}
use rally_ci.Config.Load.{
  Name, text, number, same_name, Section, named, unnamed, Item, add_entry, load_item, load_from,
  load,
}
use rally_ci.Config.Load.Faithful.{
  in_section, configured, is_named, declares, first, Added, load_item-Added, configured-load_item,
}

same_name-eq : (m n : Name) → same_name m n ≡ true → m ≡ n
same_name-eq (text a) (text b) h = ap text ((eq_iff a b).0 h)
same_name-eq (text a) (number b) h = cc
same_name-eq (number a) (text b) h = cc
same_name-eq (number a) (number b) h = ground arith

add_entry-fresh :
    (m : Option Name) (v : Value) (old : Option Section) (new : Section) (n : Name)
    → add_entry m v old ≡ ok new
    → is_named n (ok m) ≡ true
    → in_section n old ≡ none
unfolding add_entry
add_entry-fresh none v old new n h i = cc
add_entry-fresh (some m) v none new n h i = refl
add_entry-fresh (some m) v (some (unnamed l)) new n h i = cc
add_entry-fresh (some m) v (some (named d)) new n h i = ground (arith, same_name-eq m n i)

Added-fresh :
    {sections next : Dict Section} {k : String} {v : Value} (key : String) (n : Name) {w : Value}
    → Added sections next k v
    → declares key n ((k, v) ∷ []) ≡ some w
    → configured key n sections ≡ none
Added-fresh {sections} {next} {k} {v} key n a d = ground (
  arith,
  rw a.named_so at d,
  eq_iff k key,
  add_entry-fresh a.name v (lookup k sections) a.section n a.entered,
)

load_item-fresh :
    (sections next : Dict Section) (item : Item) (key : String) (n : Name) (w : Value)
    → load_item sections item ≡ ok next
    → declares key n item ≡ some w
    → configured key n sections ≡ none
load_item-fresh sections next [] key n w h d = cc
load_item-fresh sections next ((k, v) ∷ []) key n w h d =
    Added-fresh key n (load_item-Added sections next k v h) d
load_item-fresh sections next (_ ∷ _ ∷ _) key n w h d = cc

abbrev count_some {ℓ} : {A : Type ℓ} → Option A → ℕ
count_some none = 0
count_some (some _) = 1

-- The number of items that declare `name` in section `key`.
abbrev pub declarations : String → Name → List Item → ℕ
declarations key n [] = 0
declarations key n (item ∷ items) = count_some (declares key n item) + declarations key n items

count_first :
    (c d : Option Value) (r : ℕ)
    → ((w : Value) → d ≡ some w → c ≡ none)
    → count_some (first c d) + r ≤ 1
    → count_some c + (count_some d + r) ≤ 1
count_first none d r fresh h = omega arith
count_first (some v) none r fresh h = omega arith
count_first (some v) (some w) r fresh h = cc (fresh w refl)

declarations-load_from :
    (sections final : Dict Section) (items : List Item) (key : String) (n : Name)
    → load_from sections items ≡ ok final
    → count_some (configured key n sections) + declarations key n items ≤ 1
unfolding load_from
declarations-load_from sections final [] key n h = ground arith
declarations-load_from sections final (item ∷ items) key n h =
    let (next, e, h') = >>=-eq-ok (load_item sections item) _ h in
    count_first (configured key n sections) (declares key n item) (declarations key n items)
      (λ w d. load_item-fresh sections next item key n w e d)
      (rw (configured-load_item sections next item key n e) at
        (declarations-load_from next final items key n h'))

-- A file that loads declares no name twice in one section.
pub declarations-load :
    (items : List Item) (sections : Dict Section) (key : String) (n : Name)
    → load items ≡ ok sections
    → declarations key n items ≤ 1
unfolding load
declarations-load items sections key n h =
    omega (arith, declarations-load_from [] sections items key n h)
