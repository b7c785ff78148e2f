-- ===== src/Virsh/Metadata.antt =====
-- The class `MetadataServer` of rallyci/providers/virsh.py: what it answers to the requests of machines.
-- aiohttp matches the routes, and `open_keys` is what opening and reading the file of the keys gives.
mod Tests
use Prim.Native.Char.{Char, code}
use rally_ci.Prelude.{
  ℕ, suc, String, ◌<>◌, ◌==◌, Bool, true, false, ◌||◌, Option, none, some, List, [], ◌∷◌, eqb,
  if◌then◌else◌,
}
use rally_ci.Python.{key_error, Result, ok, err, ◌>>=◌}
use rally_ci.Python.Text.{show}
use rally_ci.Python.Value.{Value, Fields, obj, str, num, field, end}

-- The config of the server
pub record MetadataConfig : Type 0 where
  pub authorized_keys : Option String
  pub user_data : Option String

-- A body that is a text, one that is JSON, and the status 404.
pub data Response : Type 0 where
  text_body : String → Response
  json_body : Value → Response
  not_found : Response

abbrev pub key_of : Option String → Result String
key_of none = err key_error
key_of (some s) = ok s

abbrev cons_line : Char → List String → List String
cons_line c [] = String.◌∷◌ c String.[] ∷ []
cons_line c (l ∷ ls) = String.◌∷◌ c l ∷ ls

-- `kf.readlines()`: the lines, with the "\n" at their ends
unfoldable pub readlines : String → List String
readlines String.[] = []
readlines (String.◌∷◌ c s) =
    let rest = readlines s in
    if eqb (code c) b'\n' then String.◌∷◌ c String.[] ∷ rest else cons_line c rest

-- `keys["key-" + str(i)] = line` for the lines from the number `i` on. A number is used once, so that a
-- key is new; and a line is never empty.
unfoldable pub public_keys : ℕ → List String → Fields
unfolding show
public_keys i [] = end
public_keys i (line ∷ lines) =
    let rest = public_keys (suc i) lines in
    if line == "" then rest else field ("key-" <> show i) (str line) rest

-- `get_metadata`, for what `uuid.uuid4()` gives
unfoldable pub get_metadata : String → String → Value
unfolding public_keys readlines
get_metadata uuid authorized_keys = obj (
    field "uuid" (str uuid) (
      field "availability_zone" (str "nova") (
        field "hostname" (str "rally-ci-vm") (
          field "launch_index" (num 0) (
            field "meta"
              (obj (field "priority" (str "low") (field "role" (str "rally-ci-test-vm") end)))
              (field "public_keys" (obj (public_keys 0 (readlines authorized_keys)))
                (field "name" (str "test") end)))))))

abbrev pub is_supported : String → Bool
is_supported version = version == "2012-08-10" || version == "latest"

unfoldable pub user_data : MetadataConfig → String → Result Response
user_data config version =
    if is_supported version
    then (do body ← key_of config.user_data; ok (text_body body))
    else ok not_found

module _ (open_keys : String → Result String) (uuid : String) where
  unfoldable pub meta_data : MetadataConfig → String → Result Response
  unfolding get_metadata
  meta_data config version =
      if is_supported version
      then (do
        filename ← key_of config.authorized_keys
        authorized_keys ← open_keys filename
        ok (json_body (get_metadata uuid authorized_keys)))
      else ok not_found
