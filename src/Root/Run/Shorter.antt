-- ===== src/Root/Run/Shorter.antt =====
-- The dict of the running objects gets shorter.
use rally_ci.Prelude.{
  ℕ, ◌≤◌, ◌<◌, ◌≡◌, refl, ap, ◌∙◌, true, none, some, List, [], ◌∷◌, ◌++◌, All, length, eqb, eqb_iff,
  Bool-cases, arith, Option-cases, inl, inr,
}
use rally_ci.Root.{
  Root, find, without, done, schedule_cleanup, pop_task, Event, starts, starts_task, ends, step,
  steps, has, delete_done,
}

length-without : (fut : ℕ) (d : List (ℕ × ℕ)) → length (without fut d) ≤ length d
unfolding without
length-without fut [] = omega arith
length-without fut ((f, obj) ∷ d) = ground (arith, length-without fut d)

length-without-found :
    (fut obj : ℕ) (d : List (ℕ × ℕ)) → find fut d ≡ some obj → length (without fut d) < length d
unfolding without find
length-without-found fut obj [] h = cc
length-without-found fut obj ((f, o) ∷ d) h =
    ground (arith, h, length-without fut d, length-without-found fut obj d)

-- Only ends happen.
abbrev pub IsEnd : Event → Type 0
IsEnd (ends fut) = Unit {0}
IsEnd _ = ⊥

done-missing :
    (fut : ℕ) (r : Root)
    → find fut r.running_objects ≡ none
    → (done fut r).running_objects ≡ r.running_objects
unfolding done schedule_cleanup pop_task
done-missing fut r e = rw e refl

pub length-done :
    (fut : ℕ) (r : Root) → length (done fut r).running_objects ≤ length r.running_objects
unfolding done schedule_cleanup pop_task
length-done fut r = elim (Option-cases (find fut r.running_objects)) [
  | inl e ↦ rw e (omega arith)
  | inr (obj, e) ↦ rw e (length-without fut r.running_objects)
]

length-done-found :
    (fut obj : ℕ) (r : Root)
    → find fut r.running_objects ≡ some obj
    → length (done fut r).running_objects < length r.running_objects
unfolding done schedule_cleanup pop_task
length-done-found fut obj r e = rw e (length-without-found fut obj r.running_objects e)

pub length-steps-ends :
    (es : List Event) (r : Root)
    → All IsEnd es
    → length (steps r es).running_objects ≤ length r.running_objects
unfolding steps step
length-steps-ends [] r _ = omega arith
length-steps-ends (ends fut ∷ es) r (_, only) =
    omega (arith, length-steps-ends es (done fut r) only, length-done fut r)
length-steps-ends (starts obj ∷ es) r (never, only) = elim never [ ]
length-steps-ends (starts_task t ∷ es) r (never, only) = elim never [ ]

-- A key that is in the dict before some ends, and not after them, shortens it.
pub length-steps-gone :
    (fut obj : ℕ) (es : List Event) (r : Root)
    → All IsEnd es
    → find fut r.running_objects ≡ some obj
    → find fut (steps r es).running_objects ≡ none
    → length (steps r es).running_objects < length r.running_objects
unfolding steps step
length-steps-gone fut obj [] r _ there gone = cc
length-steps-gone fut obj (ends f ∷ es) r (_, only) there gone =
    elim (Option-cases (find f r.running_objects)) [
      | inr (o, e) ↦ omega (arith, length-steps-ends es (done f r) only, length-done-found f o r e)
      | inl e ↦
          let same = done-missing f r e in
          omega (
            arith,
            ap length same,
            length-steps-gone fut obj es (done f r) only (ap (find fut) same ∙ there) gone,
          )
    ]
length-steps-gone fut obj (starts o ∷ es) r (never, only) there gone = elim never [ ]
length-steps-gone fut obj (starts_task t ∷ es) r (never, only) there gone = elim never [ ]

pub length-delete_done :
    (finished : List ℕ) (d : List (ℕ × ℕ)) → length (delete_done finished d) ≤ length d
unfolding delete_done
length-delete_done finished [] = omega arith
length-delete_done finished ((f, obj) ∷ d) = ground (arith, length-delete_done finished d)

pub length-delete_done-found :
    (fut obj : ℕ) (finished : List ℕ) (d : List (ℕ × ℕ))
    → find fut d ≡ some obj
    → has fut finished ≡ true
    → length (delete_done finished d) < length d
unfolding delete_done find
length-delete_done-found fut obj finished [] there h = cc
length-delete_done-found fut obj finished ((f, o) ∷ d) there h = elim (Bool-cases (eqb f fut)) [
  | inl same ↦
      let e : f ≡ fut = (eqb_iff f fut).0 same in
      let finished_too : has f finished ≡ true = ap (λ x. has x finished) e ∙ h in
      rw finished_too (omega (arith, length-delete_done finished d))
  | inr other ↦
      let rest : find fut d ≡ some obj = (rw other at there) in
      ground (arith, length-delete_done-found fut obj finished d rest h)
]

pub steps-append : (es fs : List Event) (r : Root) → steps r (es ++ fs) ≡ steps (steps r es) fs
unfolding steps
steps-append [] fs r = refl
steps-append (e ∷ es) fs r = steps-append es fs (step r e)
