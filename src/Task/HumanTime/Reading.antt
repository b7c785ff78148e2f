-- ===== src/Task/HumanTime/Reading.antt =====
-- What the units of `human_time` stand for, and what its loop keeps.
use rally_ci.Prelude.{
  ℕ, zero, suc, ◌+◌, ◌-◌, ◌*◌, ◌/◌, ◌%◌, ◌<◌, String, ◌≡◌, refl, List, [], ◌∷◌, ◌++◌, arith, ltb,
  if◌then◌else◌, ◌==◌, All, ◌⊎◌, inl, inr, All-append, append-nil,
}
use native.Mathlib.Nat.{div-add-mod, div-add-mod', mod-eq_of_lt}
use rally_ci.Task.HumanTime.{interval, unit_name, human_parts}

-- The seconds of a unit, read off its name.
abbrev pub seconds_of : String → ℕ
seconds_of name =
    if name == "s"
    then 1
    else if name == "m"
    then 60
    else if name == "h"
    then 3600
    else if name == "day"
    then 86400
    else if name == "days"
    then 86400
    else 0

abbrev pub total : List (ℕ × String) → ℕ
total [] = 0
total ((a, name) ∷ r) = a * seconds_of name + total r

total-append : (l m : List (ℕ × String)) → total (l ++ m) ≡ total l + total m
total-append [] m = omega arith
total-append ((a, name) ∷ l) m = omega (arith, total-append l m)

-- What the round for unit `i` adds.
abbrev part : ℕ → ℕ → List (ℕ × String)
part i n = let a = n / interval i in if ltb 0 a then (a, unit_name i (1 % a)) ∷ [] else []

mod-eq-sub_div : (n k : ℕ) → n - n / k * k ≡ n % k
mod-eq-sub_div n k = grind arith

mod-eq_of_div_zero : (n k : ℕ) → n / k ≡ 0 → n ≡ n % k
mod-eq_of_div_zero n k e = omega (arith, rw e at (div-add-mod' n k))

seconds_of-unit_name : (i j : ℕ) → i < 4 → seconds_of (unit_name i j) ≡ interval i
seconds_of-unit_name zero j h = refl
seconds_of-unit_name (suc zero) j h = refl
seconds_of-unit_name (suc (suc zero)) j h = refl
seconds_of-unit_name (suc (suc (suc zero))) zero h = refl
seconds_of-unit_name (suc (suc (suc zero))) (suc j) h = refl
seconds_of-unit_name (suc (suc (suc (suc i)))) j h = absurd (omega arith)

-- A round leaves the remainder to the smaller units.
pub human_parts-suc :
    (i n : ℕ) (l : List (ℕ × String))
    → human_parts (suc i) n l ≡ human_parts i (n % interval i) (l ++ part i n)
unfolding human_parts
human_parts-suc i n l =
    ground (arith, append-nil l, mod-eq-sub_div n (interval i), mod-eq_of_div_zero n (interval i))

-- A part counts for its share of the seconds.
total-part : (i n : ℕ) → i < 4 → total (part i n) + n % interval i ≡ n
total-part i n h = ground (
  arith,
  seconds_of-unit_name i (1 % (n / interval i)) h,
  div-add-mod n (interval i),
  mod-eq_of_div_zero n (interval i),
)

total-human_parts_from :
    (i n : ℕ) (l : List (ℕ × String)) → i < 4 → total (human_parts (suc i) n l) ≡ total l + n
unfolding human_parts
total-human_parts_from zero n l h =
    rw (human_parts-suc zero n l) (omega (arith, total-append l (part zero n), total-part zero n h))
total-human_parts_from (suc i) n l h = rw (human_parts-suc (suc i) n l) (
    omega (
      arith,
      total-human_parts_from i (n % interval (suc i)) (l ++ part (suc i) n),
      total-append l (part (suc i) n),
      total-part (suc i) n h,
    ))

-- The parts that `human_time` prints add up to the seconds that it is given.
pub total-human_parts : (n : ℕ) → total (human_parts 4 n []) ≡ n
total-human_parts n = omega (arith, total-human_parts_from 3 n [] (omega arith))

-- An amount that is not 0 and fits its unit, which is "day" for one day alone.
abbrev pub IsProper : ℕ × String → Type 0
IsProper (a, name) =
    (0 < a)
    × ((name ≡ "s") × (a < 60)
        ⊎ (name ≡ "m") × (a < 60)
        ⊎ (name ≡ "h") × (a < 24)
        ⊎ (name ≡ "day") × (a ≡ 1)
        ⊎ (name ≡ "days") × (1 < a))

-- What is left when the loop comes to unit `i`.
abbrev Room : ℕ → ℕ → Type 0
Room zero n = n < 60
Room (suc zero) n = n < 3600
Room (suc (suc zero)) n = n < 86400
Room _ n = Unit {0}

one-mod : (a : ℕ) → 1 < a → 1 % a ≡ 1
one-mod a h = omega (arith, mod-eq_of_lt h)

day_name :
    (a : ℕ)
    → 0 < a
    → (unit_name 3 (1 % a) ≡ "day") × (a ≡ 1) ⊎ (unit_name 3 (1 % a) ≡ "days") × (1 < a)
day_name zero h = absurd (omega arith)
day_name (suc zero) h = inl (refl, refl)
day_name (suc (suc a)) h = inr (rw (one-mod (suc (suc a)) (omega arith)), omega arith)

part-IsProper : (i n : ℕ) → i < 4 → Room i n → All IsProper (part i n)
part-IsProper zero n h r = ground arith
part-IsProper (suc zero) n h r = ground arith
part-IsProper (suc (suc zero)) n h r = ground arith
part-IsProper (suc (suc (suc zero))) n h r = ground (arith, day_name (n / 86400))
part-IsProper (suc (suc (suc (suc i)))) n h r = absurd (omega arith)

Room-mod : (i n : ℕ) → i < 3 → Room i (n % interval (suc i))
Room-mod zero n h = omega arith
Room-mod (suc zero) n h = omega arith
Room-mod (suc (suc zero)) n h = omega arith
Room-mod (suc (suc (suc i))) n h = absurd (omega arith)

human_parts-IsProper_from :
    (i n : ℕ) (l : List (ℕ × String))
    → i < 4
    → Room i n
    → All IsProper l
    → All IsProper (human_parts (suc i) n l)
unfolding human_parts
human_parts-IsProper_from zero n l h r all =
    rw (human_parts-suc zero n l) (All-append _ l _ all (part-IsProper zero n h r))
human_parts-IsProper_from (suc i) n l h r all = rw (human_parts-suc (suc i) n l) (
    human_parts-IsProper_from i (n % interval (suc i)) (l ++ part (suc i) n) (omega arith)
      (Room-mod i n (omega arith)) (All-append _ l _ all (part-IsProper (suc i) n h r)))

-- Every part that `human_time` prints has a positive amount below the next unit, and names one day
-- in the singular.
pub human_parts-IsProper : (n : ℕ) → All IsProper (human_parts 4 n [])
human_parts-IsProper n = human_parts-IsProper_from 3 n [] (omega arith) tt tt
