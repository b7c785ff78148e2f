-- ===== src/Python/Value.antt =====
-- A value that `json.loads` or `yaml.safe_load` returns, with the operations that the code applies.
use rally_ci.Prelude.{
  ℕ, zero, suc, String, ◌<>◌, ◌==◌, Bool, true, false, Option, none, some, if◌then◌else◌,
}
use rally_ci.Python.{key_error, type_error, attribute_error, Result, ok, err}

mutual
  pub data Fields : Type 0 where
    field : String → Value → Fields → Fields
    end : Fields

  pub data Items : Type 0 where
    cons : Value → Items → Items
    nil : Items

  pub data Value : Type 0 where
    obj : Fields → Value
    arr : Items → Value
    str : String → Value
    num : ℕ → Value
    bool : Bool → Value
    null : Value

abbrev pub find_field : String → Fields → Option Value
find_field k end = none
find_field k (field j v fs) = if j == k then some v else find_field k fs

abbrev or_key_error : Option Value → Result Value
or_key_error none = err key_error
or_key_error (some v) = ok v

-- `v[k]` with a text `k`
abbrev pub index : Value → String → Result Value
index (obj fs) k = or_key_error (find_field k fs)
index _ k = err type_error

abbrev or_default : Option Value → Value → Result Value
or_default none d = ok d
or_default (some v) d = ok v

-- `v.get(k, d)`
abbrev pub get : Value → String → Value → Result Value
get (obj fs) k d = or_default (find_field k fs) d
get _ k d = err attribute_error

-- `if v:`
abbrev pub truthy : Value → Bool
truthy null = false
truthy (bool b) = b
truthy (num n) = elim n [ zero ↦ false | suc _ ↦ true ]
truthy (str s) = if s == "" then false else true
truthy (arr nil) = false
truthy (arr (cons _ _)) = true
truthy (obj end) = false
truthy (obj (field _ _ _)) = true

-- `a + b`, where the code joins two texts. A sum of numbers or lists is no text either.
abbrev pub plus : Value → Value → Result String
plus (str a) (str b) = ok (a <> b)
plus _ _ = err type_error
