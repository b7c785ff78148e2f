-- ===== src/Virsh/Bridge/Free.antt =====
-- The bridge that `_get_bridge` makes: one more number than there are interfaces is always enough.
use rally_ci.Prelude.{
  ℕ, ◌<◌, String, ◌≡◌, true, false, some, List, [], ◌∷◌, ◌++◌, eqb, if◌then◌else◌, ◌≢◌, All,
}
use rally_ci.Python.Text.{concat}
use rally_ci.Virsh.Interfaces.{interface}
use rally_ci.Virsh.Remote.{Reply, exited}
use rally_ci.Virsh.Bridge.{has_number}

unfoldable remove : ℕ → List ℕ → List ℕ
remove n [] = []
remove n (m ∷ ms) = let rest = remove n ms in if eqb m n then rest else m ∷ rest

-- The first number that is missing.
pub record Missing (nums : List ℕ) : Type 0 where
  pub number : ℕ
  pub free : has_number number nums ≡ false
  pub first : (j : ℕ) → j < number → has_number j nums ≡ true

-- No interface in the listing is called `prefix` with the number `n`.
abbrev pub IsUnused : String → ℕ → List String → Type 0
IsUnused prefix n lines = All (λ line. interface line ≢ some (prefix, n)) lines

-- After some command, the commands that make a bridge succeed.
abbrev pub Makes : (List String → String → Reply) → List String → Type 0
Makes answer log =
    (command : String) (rest : List String) (br : String)
    → (answer (log ++ command ∷ rest) (concat ("ip link add " ∷ br ∷ " type bridge" ∷ []))
        ≡ exited 0 "")
      × (answer (log ++ command ∷ rest) (concat ("ip link set " ∷ br ∷ " up" ∷ [])) ≡ exited 0 "")

abbrev pub commands : String → List String
commands br =
    "ip link list"
    ∷ concat ("ip link add " ∷ br ∷ " type bridge" ∷ [])
    ∷ concat ("ip link set " ∷ br ∷ " up" ∷ [])
    ∷ []
