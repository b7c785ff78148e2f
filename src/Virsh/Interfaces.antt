-- ===== src/Virsh/Interfaces.antt =====
-- The names of network interfaces in what `ip link list` prints: `IFACE_RE` of
-- rallyci/providers/virsh.py, `\d+: ([a-z]+)(\d+): .*`, matched at the start of a line. The classes of
-- characters do not overlap, so the longest run of each is the only match. Lines end with "\n".
use Prim.Native.Char.{code}
use rally_ci.Prelude.{
  ℕ, ◌+◌, ◌*◌, ◌-◌, String, ◌==◌, Bool, ◌&&◌, Option, none, some, leb, eqb, if◌then◌else◌, ◌≡◌,
  refl,
}

abbrev pub is_digit : ℕ → Bool
is_digit c = leb b'0' c && leb c b'9'

abbrev is_lower : ℕ → Bool
is_lower c = leb b'a' c && leb c b'z'

-- The longest prefix of characters in the class, and the rest.
unfoldable pub span : (ℕ → Bool) → String → String × String
span p String.[] = ("", "")
span p (String.◌∷◌ c s) =
    let (run, rest) = span p s in
    if p (code c) then (String.◌∷◌ c run, rest) else ("", String.◌∷◌ c s)

-- `[...]+`
abbrev pub run_of : (ℕ → Bool) → String → Option (String × String)
run_of p s = let (run, rest) = span p s in if run == "" then none else some (run, rest)

abbrev colon_space : String → Option String
colon_space (String.◌∷◌ c (String.◌∷◌ d s)) =
    if eqb (code c) b':' && eqb (code d) b' ' then some s else none
colon_space _ = none

infixl 5 ◌>>=◌
abbrev pub ◌>>=◌ {ℓ κ} : {A : Type ℓ} {B : Type κ} → Option A → (A → Option B) → Option B
none >>= f = none
some a >>= f = f a

-- `int(digits)`
unfoldable pub value_of : ℕ → String → ℕ
value_of n String.[] = n
value_of n (String.◌∷◌ c s) = value_of (n * 10 + (code c - b'0')) s

-- The two groups of a match: the prefix of the name, and its number.
unfoldable pub interface : String → Option (String × ℕ)
unfolding span value_of
interface line = do
  (_, rest) ← run_of is_digit line
  name ← colon_space rest
  (prefix, numbered) ← run_of is_lower name
  (digits, end) ← run_of is_digit numbered
  _ ← colon_space end
  some (prefix, value_of 0 digits)

interface_cases :
    (interface "12: virbr10: <BROADCAST>" ≡ some ("virbr", 10))
    × (interface "3: eth: <BROADCAST>" ≡ none)
    × (interface "    link/ether" ≡ none)
unfolding interface
interface_cases = (refl, refl, refl)
