-- ===== src/Virsh/Bridge.antt =====
-- `Host._get_bridge`: a new bridge with the first number that no interface of its prefix has.
-- It runs under `DYNAMIC_BRIDGE_LOCK`, so no other bridge is made meanwhile.
pub mod Free
use rally_ci.Prelude.{
  ℕ, zero, suc, String, ◌<>◌, ◌==◌, Bool, true, false, ◌||◌, Option, none, some, List, [], ◌∷◌, eqb,
  length, if◌then◌else◌,
}
use rally_ci.Python.{unbound_local_error, Result, ok, err}
use rally_ci.Python.Exec.{Exec, pure, lift, ◌>>=◌, ◌>>◌}
use rally_ci.Python.Text.{concat, show, splitlines}
use rally_ci.Virsh.Interfaces.{interface}
use rally_ci.Virsh.Remote.{Reply, Host, run_command, output_of}

unfoldable pub has_number : ℕ → List ℕ → Bool
has_number n [] = false
has_number n (m ∷ ms) = eqb m n || has_number n ms

-- `nums.add(n)` for an interface of the prefix
abbrev pub collect : String → Option (String × ℕ) → List ℕ → List ℕ
collect prefix none nums = nums
collect prefix (some (p, n)) nums =
    if p == prefix then (if has_number n nums then nums else n ∷ nums) else nums

-- `nums`, a set
unfoldable pub numbers : String → List String → List ℕ
numbers prefix [] = []
numbers prefix (line ∷ lines) = collect prefix (interface line) (numbers prefix lines)

-- The loop over `range`: `i` is its variable and `rounds` the rounds that are left; `none` is a loop
-- that ends without `break`.
unfoldable pub first_free : List ℕ → ℕ → ℕ → Option ℕ
first_free nums i zero = none
first_free nums i (suc rounds) = elim (has_number i nums) [
  | true ↦ first_free nums (suc i) rounds
  | false ↦ some i
]

-- `br` is bound by the loop's `break` alone.
abbrev pub bridge_of : String → Option ℕ → Result String
bridge_of prefix none = err unbound_local_error
bridge_of prefix (some i) = ok (prefix <> show i)

module _ (answer : List String → String → Reply) where
  unfoldable pub get_bridge : String → Exec Host String
  unfolding run_command numbers first_free concat
  get_bridge prefix = do
    reply ← run_command answer true "ip link list"
    data_ ← lift (output_of reply)
    let nums = numbers prefix (splitlines data_)
    br ← lift (bridge_of prefix (first_free nums 0 (suc (length nums))))
    run_command answer true (concat ("ip link add " ∷ br ∷ " type bridge" ∷ []))
    run_command answer true (concat ("ip link set " ∷ br ∷ " up" ∷ []))
    pure br
