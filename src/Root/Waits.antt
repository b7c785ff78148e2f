-- ===== src/Root/Waits.antt =====
-- The futures that are left when some are done.
use rally_ci.Prelude.{ℕ, ◌≤◌, ◌<◌, ◌≡◌, true, List, [], ◌∷◌, any, length, arith}
use rally_ci.Root.{has, without_all}

length-without_all : (finished fs : List ℕ) → length (without_all finished fs) ≤ length fs
unfolding without_all
length-without_all finished [] = omega arith
length-without_all finished (f ∷ fs) = ground (arith, length-without_all finished fs)

pub length-without_all-any :
    (finished fs : List ℕ)
    → any (λ f. has f finished) fs ≡ true
    → length (without_all finished fs) < length fs
unfolding without_all
length-without_all-any finished [] h = cc
length-without_all-any finished (f ∷ fs) h =
    ground (arith, length-without_all finished fs, length-without_all-any finished fs, h)
