-- ===== src/Virsh/Machine/Network/Unregister.antt =====
-- What is left of the machines on bridges when one machine is taken off its bridges.
use rally_ci.Prelude.{
  ℕ, suc, ◌≤◌, String, ◌≡◌, refl, Bool, false, ◌&&◌, ◌||◌, Option, none, some, List, [], ◌∷◌, eqb,
  if◌then◌else◌, arith, All, eq_iff,
}
use rally_ci.Virsh.Bridge.{has_number}
use rally_ci.Virsh.Machine.Network.{
  Bridges, same_bridge, remove_first, unregister, unregister_all, in_use,
}

unfoldable pub registered : Option String → ℕ → Bridges → Bool
unfolding has_number
registered br m [] = false
registered br m ((k, l) ∷ d) = (same_bridge k br && has_number m l) || registered br m d

unfoldable pub count : ℕ → List ℕ → ℕ
count n [] = 0
count n (m ∷ ms) = if eqb m n then suc (count n ms) else count n ms

-- A machine is at most once on a bridge.
abbrev pub AtMostOnce : ℕ → Bridges → Type 0
AtMostOnce n d = All (λ (k, l). count n l ≤ 1) d

count-has_number : (n : ℕ) (l : List ℕ) → count n l ≡ 0 → has_number n l ≡ false
unfolding count has_number
count-has_number n [] h = refl
count-has_number n (m ∷ ms) h = ground (arith, count-has_number n ms)

has_number-remove_first :
    (n m : ℕ) (l : List ℕ)
    → count n l ≤ 1
    → has_number m (remove_first n l) ≡ (if eqb m n then false else has_number m l)
unfolding count has_number remove_first
has_number-remove_first n m [] h = ground arith
has_number-remove_first n m (k ∷ l) h =
    ground (arith, count-has_number n l, has_number-remove_first n m l)

count-remove_first : (n : ℕ) (l : List ℕ) → count n l ≤ 1 → count n (remove_first n l) ≤ 1
unfolding count remove_first
count-remove_first n [] h = omega arith
count-remove_first n (k ∷ l) h = ground (arith, count-remove_first n l)

unregister-AtMostOnce :
    (n : ℕ) (c : String) (d : Bridges) → AtMostOnce n d → AtMostOnce n (unregister n c d)
unfolding unregister
unregister-AtMostOnce n c [] h = tt
unregister-AtMostOnce n c ((k, l) ∷ d) (once, h) =
    (ground (arith, count-remove_first n l once, once), unregister-AtMostOnce n c d h)

-- One entry of the dict.
has_number-entry :
    (k br : Option String) (n m : ℕ) (c : String) (l : List ℕ)
    → count n l ≤ 1
    → (same_bridge k br && has_number m (if same_bridge k (some c) then remove_first n l else l))
      ≡ (if eqb m n && same_bridge (some c) br then false else same_bridge k br && has_number m l)
has_number-entry none none n m c l once = ground arith
has_number-entry none (some b) n m c l once = ground arith
has_number-entry (some a) none n m c l once = ground arith
has_number-entry (some a) (some b) n m c l once =
    ground (arith, eq_iff a b, eq_iff a c, eq_iff c b, has_number-remove_first n m l once)

registered-unregister :
    (n : ℕ) (c : String) (d : Bridges) (br : Option String) (m : ℕ)
    → AtMostOnce n d
    → registered br m (unregister n c d)
      ≡ (if eqb m n && same_bridge (some c) br then false else registered br m d)
unfolding registered unregister
registered-unregister n c [] br m h = ground arith
registered-unregister n c ((k, l) ∷ d) br m (once, h) =
    rw (has_number-entry k br n m c l once, registered-unregister n c d br m h) (ground arith)

-- Whether a bridge is one of those that the machine is taken off.
unfoldable pub among : Option String → List String → Bool
among br [] = false
among br (c ∷ cs) = same_bridge (some c) br || among br cs

pub registered-unregister_all :
    (n : ℕ) (cs : List String) (d : Bridges) (br : Option String) (m : ℕ)
    → AtMostOnce n d
    → registered br m (unregister_all n cs d)
      ≡ (if eqb m n && among br cs then false else registered br m d)
unfolding unregister_all among
registered-unregister_all n [] d br m h = ground arith
registered-unregister_all n (c ∷ cs) d br m h =
    rw
      (
        registered-unregister_all n cs (unregister n c d) br m (unregister-AtMostOnce n c d h),
        registered-unregister n c d br m h,
      )
      (ground arith)

pub registered-in_use :
    (d : Bridges) (br : Option String) (m : ℕ) → registered br m (in_use d) ≡ registered br m d
unfolding registered in_use has_number
registered-in_use [] br m = refl
registered-in_use ((k, []) ∷ d) br m = rw (registered-in_use d br m) (ground arith)
registered-in_use ((k, n ∷ ns) ∷ d) br m = rw (registered-in_use d br m) refl

-- Every bridge that is left has a machine.
abbrev pub HasMachine : Option String × List ℕ → Type 0
HasMachine (k, []) = ⊥
HasMachine (k, m ∷ ms) = Unit {0}

pub in_use-HasMachine : (d : Bridges) → All HasMachine (in_use d)
unfolding in_use
in_use-HasMachine [] = tt
in_use-HasMachine ((k, []) ∷ d) = in_use-HasMachine d
in_use-HasMachine ((k, m ∷ ms) ∷ d) = (tt, in_use-HasMachine d)
