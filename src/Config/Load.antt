-- ===== src/Config/Load.antt =====
-- The loop of `Config.__init__` that sorts the entries of the file into `self.data`.
-- A name is a text or a number, as Python's keys are; `True` is the number 1. A list or a dict is no
-- key, so such a name raises TypeError.
pub mod Faithful
pub mod Unique
use rally_ci.Prelude.{
  ℕ, zero, suc, String, ◌≡◌, refl, Bool, true, false, Option, none, some, List, [], ◌∷◌, ◌++◌, ◌==◌,
  eqb, if◌then◌else◌,
}
use rally_ci.Prelude.Dict.{Dict, lookup, insert}
use rally_ci.Python.{type_error, attribute_error, value_error, index_error, Result, ok, err, ◌>>=◌}
use rally_ci.Python.Value.{Value, null, bool, num, str, arr, obj, nil, cons, end, field, get}

pub data Name : Type 0 where
  text : String → Name
  number : ℕ → Name

abbrev pub same_name : Name → Name → Bool
same_name (text a) (text b) = a == b
same_name (number a) (number b) = eqb a b
same_name _ _ = false

-- `self.data[key]`: a dict by name, or a list of the entries that have no name.
pub data Section : Type 0 where
  named : List (Name × Value) → Section
  unnamed : List Value → Section

-- One item of the file: a dict whose keys are texts.
abbrev pub Item : Type 0
Item = List (String × Value)

unfoldable pub find : Name → List (Name × Value) → Option Value
find n [] = none
find n ((m, v) ∷ d) = if same_name m n then some v else find n d

-- The name as a key, `none` where `if name:` fails.
abbrev pub name_of : Value → Result (Option Name)
name_of null = ok none
name_of (bool false) = ok none
name_of (bool true) = ok (some (number 1))
name_of (num zero) = ok none
name_of (num (suc n)) = ok (some (number (suc n)))
name_of (str s) = ok (if s == "" then none else some (text s))
name_of (arr nil) = ok none
name_of (arr (cons _ _)) = err type_error
name_of (obj end) = ok none
name_of (obj (field _ _ _)) = err type_error

add_named : Name → Value → Option Section → Result Section
add_named n v none = ok (named ((n, v) ∷ []))
add_named n v (some (named d)) = elim (find n d) [
  | some _ ↦ err value_error
  | none ↦ ok (named (d ++ (n, v) ∷ []))
]
add_named n v (some (unnamed l)) = err type_error

add_unnamed : Value → Option Section → Result Section
add_unnamed v none = ok (unnamed (v ∷ []))
add_unnamed v (some (unnamed l)) = ok (unnamed (l ++ v ∷ []))
add_unnamed v (some (named d)) = err attribute_error

unfoldable pub add_entry : Option Name → Value → Option Section → Result Section
unfolding add_named add_unnamed
add_entry (some n) v = add_named n v
add_entry none v = add_unnamed v

-- The body of the loop.
unfoldable pub load_item : Dict Section → Item → Result (Dict Section)
unfolding add_entry
load_item sections [] = err index_error
load_item sections ((key, value) ∷ []) = do
  raw_name ← get value "name" null
  name ← name_of raw_name
  section ← add_entry name value (lookup key sections)
  ok (insert key section sections)
load_item sections (_ ∷ _ ∷ _) = err value_error

unfoldable pub load_from : Dict Section → List Item → Result (Dict Section)
unfolding load_item
load_from sections [] = ok sections
load_from sections (item ∷ items) = do next ← load_item sections item; load_from next items

unfoldable pub load : List Item → Result (Dict Section)
unfolding load_from
load items = load_from [] items
