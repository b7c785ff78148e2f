-- ===== src/Root/Run/Drain.antt =====
-- The wait for everything that runs ends.
use rally_ci.Prelude.{
  ℕ, zero, suc, ◌≤◌, ◌<◌, ◌≡◌, ◌≢◌, ◌⊎◌, refl, ap, ◌∙◌, true, some, List, [], ◌∷◌, ◌++◌, All,
  length, append-nil, append_assoc, arith, Option-cases, inl, inr,
}
use rally_ci.Root.{Root, find, Event, starts, starts_task, ends, steps, has}
use rally_ci.Root.Sound.{owners_in, started, IsBalanced, steps-IsBalanced, delete_done-IsBalanced}
use rally_ci.Root.Run.{round, drain, drain_on}
use rally_ci.Root.Run.Shorter.{
  IsEnd, length-steps-ends, length-steps-gone, length-delete_done, length-delete_done-found,
}

List-cases {ℓ} : {A : Type ℓ} (xs : List A) → (xs ≡ []) ⊎ ((x : A) × (ys : List A) × (xs ≡ x ∷ ys))
List-cases [] = inl refl
List-cases (x ∷ xs) = inr (x, xs, refl)

module _ (happens : ℕ → Root → List Event) (returned : ℕ → Root → List ℕ) where
  -- What `asyncio.wait` does while something runs: nothing new is started, and it returns at least one
  -- of the futures that it was called with.
  abbrev pub Ending : Type 0
  Ending =
      (k : ℕ) (r : Root)
      → r.running_objects ≢ []
      → All IsEnd (happens k r)
        × (fut : ℕ) × (obj : ℕ) × (find fut r.running_objects ≡ some obj)
        × (has fut (returned k r) ≡ true)

  lost_on : List (ℕ × ℕ) → (Root → List ℕ) → Root → List ℕ
  lost_on [] again r = []
  lost_on (_ ∷ _) again r = again r

  -- The objects whose futures were returned before their callbacks were called, in the rounds from the
  -- k-th on
  unfoldable pub lost : ℕ → ℕ → Root → List ℕ
  unfolding lost_on
  lost zero k r = []
  lost (suc fuel) k r =
      lost_on r.running_objects
        (λ r'.
          owners_in (returned k r') (steps r' (happens k r')).running_objects
          ++ lost fuel (suc k) (round happens returned k r'))
        r

  length-round :
      (k : ℕ) (r : Root)
      → Ending
      → r.running_objects ≢ []
      → length (round happens returned k r).running_objects < length r.running_objects
  unfolding round
  length-round k r ending busy =
      let (only, fut, obj, there, is_returned) = ending k r busy in
      let after = steps r (happens k r) in
      let le = length-steps-ends (happens k r) r only in
      let le' = length-delete_done (returned k r) after.running_objects in
      elim (Option-cases (find fut after.running_objects)) [
        | inl gone ↦ omega (arith, le', length-steps-gone fut obj (happens k r) r only there gone)
        | inr (o, e) ↦ omega (
          arith,
          le,
          length-delete_done-found fut o (returned k r) after.running_objects e is_returned,
        )
      ]

  started-ends : (es : List Event) → All IsEnd es → started es ≡ []
  started-ends [] only = refl
  started-ends (ends fut ∷ es) (_, only) = started-ends es only
  started-ends (starts obj ∷ es) (never, only) = elim never [ ]
  started-ends (starts_task t ∷ es) (never, only) = elim never [ ]

  round-IsBalanced :
      (k : ℕ) (start gone : List ℕ) (r : Root)
      → All IsEnd (happens k r)
      → IsBalanced start gone r
      → IsBalanced start
          (gone ++ owners_in (returned k r) (steps r (happens k r)).running_objects)
          (round happens returned k r)
  unfolding round
  round-IsBalanced k start gone r only b =
      let none_new : start ++ started (happens k r) ≡ start =
        ap (λ es. start ++ es) (started-ends (happens k r) only) ∙ append-nil start in
      let after : IsBalanced start gone (steps r (happens k r)) =
        rw (← none_new) (steps-IsBalanced (happens k r) start gone r b) in
      delete_done-IsBalanced (returned k r) start gone (steps r (happens k r)) after

  drain-suc :
      (fuel k : ℕ) (r : Root) (x : ℕ × ℕ) (xs : List (ℕ × ℕ))
      → r.running_objects ≡ x ∷ xs
      → (drain happens returned (suc fuel) k r
          ≡ drain happens returned fuel (suc k) (round happens returned k r))
        × (lost (suc fuel) k r
            ≡ owners_in (returned k r) (steps r (happens k r)).running_objects
              ++ lost fuel (suc k) (round happens returned k r))
  unfolding drain drain_on lost
  drain-suc fuel k r x xs e = (rw e refl, rw e refl)

  lost-idle : (fuel k : ℕ) (r : Root) → r.running_objects ≡ [] → lost (suc fuel) k r ≡ []
  unfolding lost
  lost-idle fuel k r e = rw e refl

  -- The wait ends with nothing left, and everything but what was lost is accounted for.
  pub drain-ends :
      (fuel k : ℕ) (start gone : List ℕ) (r : Root)
      → Ending
      → length r.running_objects ≤ fuel
      → IsBalanced start gone r
      → (r' : Root) × (drain happens returned fuel k r ≡ some r')
        × (r'.running_objects ≡ [])
        × IsBalanced start (gone ++ lost fuel k r) r'
  unfolding drain drain_on lost
  drain-ends zero k start gone r ending le b = elim (List-cases r.running_objects) [
    | inl e ↦ (r, rw e refl, e, rw (append-nil gone) b)
    | inr (x, xs, e) ↦ absurd (omega (arith, ap length e, le))
  ]
  drain-ends (suc fuel) k start gone r ending le b = elim (List-cases r.running_objects) [
    | inl e ↦ (r, rw e refl, e, rw (lost-idle fuel k r e, append-nil gone) b)
    | inr (x, xs, e) ↦
        let busy : r.running_objects ≢ [] = λ none. cc in
        let (only, _, _, _, _) = ending k r busy in
        let early = owners_in (returned k r) (steps r (happens k r)).running_objects in
        let (r', found, empty, b') =
          drain-ends fuel (suc k) start (gone ++ early) (round happens returned k r) ending
            (omega (arith, length-round k r ending busy, le))
            (round-IsBalanced k start gone r only b) in
        let (next, lost_next) = drain-suc fuel k r x xs e in
        (
          r',
          next ∙ found,
          empty,
          rw (lost_next, ← append_assoc gone early (lost fuel (suc k) (round happens returned k r)))
              b',
        )
  ]
