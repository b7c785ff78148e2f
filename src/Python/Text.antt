-- ===== src/Python/Text.antt =====
-- Texts: `split`, `join`, `str` of a number, and `os.path.join`.
use Prim.Native.Char.{Char, code}
use rally_ci.Prelude.{
  ℕ, zero, suc, ◌/◌, ◌%◌, String, ◌<>◌, ◌==◌, List, [], ◌∷◌, Bool, true, false, eqb, ltb, ◌||◌,
  ◌&&◌, if◌then◌else◌, ◌≡◌, refl,
}
use text.Mathlib.Text.{starts_with}

-- "".join(parts), and `%` or `format` with the parts written out
unfoldable pub concat : List String → String
concat [] = ""
concat (s ∷ r) = s <> concat r

-- sep.join(parts)
unfoldable pub join : String → List String → String
join sep [] = ""
join sep (s ∷ []) = s
join sep (s ∷ t ∷ r) = s <> (sep <> join sep (t ∷ r))

abbrev one : Char → String
one c = String.◌∷◌ c String.[]

abbrev cons_head : Char → List String → List String
cons_head c [] = one c ∷ []
cons_head c (p ∷ ps) = String.◌∷◌ c p ∷ ps

-- s.split(sep) for a separator of one character
unfoldable pub split : ℕ → String → List String
split sep String.[] = "" ∷ []
split sep (String.◌∷◌ c s) =
    let rest = split sep s in if eqb (code c) sep then "" ∷ rest else cons_head c rest

-- `str.isspace` of a character
abbrev pub is_space : ℕ → Bool
is_space c =
    eqb c b' '
    || (ltb 8 c && ltb c 14)
    || (ltb 27 c && ltb c 32)
    || eqb c 133
    || eqb c 160
    || eqb c 5760
    || (ltb 8191 c && ltb c 8203)
    || eqb c 8232
    || eqb c 8233
    || eqb c 8239
    || eqb c 8287
    || eqb c 12288

abbrev without_last_empty : List String → List String
without_last_empty [] = []
without_last_empty (l ∷ ls) = elim ls [
  | [] ↦ if l == "" then [] else l ∷ []
  | _ ∷ _ ↦ l ∷ without_last_empty ls
]

-- s.splitlines() for lines that end in "\n"
unfoldable pub splitlines : String → List String
unfolding split
splitlines s = without_last_empty (split b'\n' s)

abbrev pub digit : ℕ → String
digit zero = "0"
digit (suc zero) = "1"
digit (suc (suc zero)) = "2"
digit (suc (suc (suc zero))) = "3"
digit (suc (suc (suc (suc zero)))) = "4"
digit (suc (suc (suc (suc (suc zero))))) = "5"
digit (suc (suc (suc (suc (suc (suc zero)))))) = "6"
digit (suc (suc (suc (suc (suc (suc (suc zero))))))) = "7"
digit (suc (suc (suc (suc (suc (suc (suc (suc zero)))))))) = "8"
digit _ = "9"

-- The fuel is above the number, and a round divides the number by ten.
digits : ℕ → ℕ → String → String
digits zero n out = out
digits (suc fuel) n out = elim (eqb (n / 10) 0) [
  | true ↦ digit (n % 10) <> out
  | false ↦ digits fuel (n / 10) (digit (n % 10) <> out)
]

-- str(n)
unfoldable pub show : ℕ → String
unfolding digits
show n = digits (suc n) n ""

abbrev ends_with_slash : String → Bool
ends_with_slash String.[] = false
ends_with_slash (String.◌∷◌ c String.[]) = eqb (code c) b'/'
ends_with_slash (String.◌∷◌ c (String.◌∷◌ d s)) = ends_with_slash (String.◌∷◌ d s)

-- os.path.join(a, b)
unfoldable pub path_join : String → String → String
path_join a b =
    if starts_with b "/"
    then b
    else if a == "" || ends_with_slash a
    then a <> b
    else a <> ("/" <> b)

split_path : split b'.' "patchSet.ref" ≡ "patchSet" ∷ "ref" ∷ []
unfolding split
split_path = refl

show_1807 : show 1807 ≡ "1807"
unfolding show
show_1807 = refl

path_join_cases : (path_join "logs" "job" ≡ "logs/job") × (path_join "logs" "/job" ≡ "/job")
unfolding path_join
path_join_cases = (refl, refl)

splitlines_cases :
    (splitlines "" ≡ []) × (splitlines "a\nb" ≡ "a" ∷ "b" ∷ []) × (splitlines "a\n" ≡ "a" ∷ [])
unfolding splitlines
splitlines_cases = (refl, refl, refl)
