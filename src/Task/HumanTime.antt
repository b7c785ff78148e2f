-- ===== src/Task/HumanTime.antt =====
-- `human_time` of rallyci/task.py, which prints the time that a job took. A negative number of seconds has no
-- positive quotient, so that nothing is printed for it, as for 0.
pub mod Reading
mod Tests
use rally_ci.Prelude.{
  ℕ, zero, suc, ◌+◌, ◌-◌, true, false, ◌*◌, ◌/◌, ◌%◌, ◌≤◌, ◌<◌, String, ◌<>◌, ◌≡◌, refl, List, [],
  ◌∷◌, ◌++◌, map, arith, ltb, if◌then◌else◌, ◌==◌, length, All,
}
use rally_ci.Python.Text.{join, show}

-- INTERVALS[i]
abbrev pub interval : ℕ → ℕ
interval zero = 1
interval (suc zero) = 60
interval (suc (suc zero)) = 3600
interval _ = 86400

-- NAMES[i][j]; `j` is 0 or 1.
abbrev pub unit_name : ℕ → ℕ → String
unit_name zero _ = "s"
unit_name (suc zero) _ = "m"
unit_name (suc (suc zero)) _ = "h"
unit_name (suc (suc (suc _))) zero = "day"
unit_name (suc (suc (suc _))) (suc _) = "days"

-- The loop of `human_time`: `result` and `seconds` are its variables, and it goes down from i = n - 1.
unfoldable pub human_parts : ℕ → ℕ → List (ℕ × String) → List (ℕ × String)
human_parts zero seconds result = result
human_parts (suc i) seconds result =
    let a = seconds / interval i in
    elim (ltb 0 a) [
      | true ↦ human_parts i (seconds - a * interval i) (result ++ (a, unit_name i (1 % a)) ∷ [])
      | false ↦ human_parts i seconds result
    ]

unfoldable pub human_time : ℕ → String
unfolding human_parts
human_time seconds = join " " (map (λ (a, name). show a <> name) (human_parts 4 seconds []))
