-- ===== src/Root/Sound.antt =====
-- The objects that run and the cleanups that were scheduled are, together, the objects that were started.
use rally_ci.Prelude.{
  ℕ, suc, ◌+◌, ◌≤◌, ◌<◌, ◌≡◌, refl, none, some, List, [], ◌∷◌, ◌++◌, eqb, ltb, arith, append-nil,
  append_assoc, if◌then◌else◌, Option-cases, Bool-cases, inl, inr,
}
use rally_ci.Root.{
  Root, find, without, start_obj, start_task, schedule_cleanup, pop_task, done, Event, starts,
  starts_task, ends, step, steps, has, delete_done,
}

unfoldable pub count_key : ℕ → List (ℕ × ℕ) → ℕ
count_key fut [] = 0
count_key fut ((f, obj) ∷ d) = let n = count_key fut d in if eqb f fut then suc n else n

unfoldable pub count : ℕ → List ℕ → ℕ
count obj [] = 0
count obj (o ∷ os) = let n = count obj os in if eqb o obj then suc n else n

-- The objects of a dict
abbrev pub owners : List (ℕ × ℕ) → List ℕ
owners [] = []
owners ((f, obj) ∷ d) = obj ∷ owners d

-- The objects that are started
abbrev pub started : List Event → List ℕ
started [] = []
started (starts obj ∷ es) = obj ∷ started es
started (starts_task task ∷ es) = task ∷ started es
started (ends fut ∷ es) = started es

-- The objects of a dict whose futures are among some
unfoldable pub owners_in : List ℕ → List (ℕ × ℕ) → List ℕ
unfolding has
owners_in finished [] = []
owners_in finished ((f, obj) ∷ d) =
    let rest = owners_in finished d in if has f finished then obj ∷ rest else rest

pub count-append : (obj : ℕ) (xs ys : List ℕ) → count obj (xs ++ ys) ≡ count obj xs + count obj ys
unfolding count
count-append obj [] ys = omega arith
count-append obj (x ∷ xs) ys = ground (arith, count-append obj xs ys)

pub count_key-without :
    (f fut : ℕ) (d : List (ℕ × ℕ))
    → count_key f (without fut d) ≡ (if eqb fut f then 0 else count_key f d)
unfolding count_key without
count_key-without f fut [] = ground arith
count_key-without f fut ((g, obj) ∷ d) = ground (arith, count_key-without f fut d)

pub count_key-found : (fut obj : ℕ) (d : List (ℕ × ℕ)) → find fut d ≡ some obj → 0 < count_key fut d
unfolding count_key find
count_key-found fut obj [] h = cc
count_key-found fut obj ((f, o) ∷ d) h = ground (arith, h, count_key-found fut obj d)

pub count_key-missing : (fut : ℕ) (d : List (ℕ × ℕ)) → find fut d ≡ none → count_key fut d ≡ 0
unfolding count_key find
count_key-missing fut [] h = refl
count_key-missing fut ((f, o) ∷ d) h = ground (arith, h, count_key-missing fut d)

-- Without a key that is not there, nothing is lost.
count-without-missing :
    (o fut : ℕ) (d : List (ℕ × ℕ))
    → count_key fut d ≡ 0
    → count o (owners (without fut d)) ≡ count o (owners d)
unfolding count_key without count
count-without-missing o fut [] h = refl
count-without-missing o fut ((f, obj) ∷ d) h = ground (arith, h, count-without-missing o fut d)

count-without-found :
    (o fut obj : ℕ) (d : List (ℕ × ℕ))
    → find fut d ≡ some obj
    → count_key fut d ≤ 1
    → count o (owners d) ≡ count o (owners (without fut d)) + (if eqb obj o then 1 else 0)
unfolding count_key without count find
count-without-found o fut obj [] h le = cc
count-without-found o fut obj ((f, x) ∷ d) h le = elim (Bool-cases (eqb f fut)) [
  | inl same ↦
      let here : some x ≡ some obj = (rw same at h) in
      let none_left : count_key fut d ≡ 0 = ground (arith, le, same) in
      ground (arith, same, here, count-without-missing o fut d none_left)
  | inr other ↦
      let rest : find fut d ≡ some obj = (rw other at h) in
      ground (arith, other, count-without-found o fut obj d rest (ground (arith, le, other)))
]

-- What is started, lost, cleaned up and running is in balance; a future belongs to one object at most, and
-- was made.
pub record IsBalanced (start lost : List ℕ) (r : Root) : Type 0 where
  pub single : (fut : ℕ) → count_key fut r.running_objects ≤ (if ltb fut r.made then 1 else 0)
  pub balance :
      (obj : ℕ)
      → count obj (owners r.running_objects) + count obj r.running_cleanups + count obj lost
        ≡ count obj start

start_obj-IsBalanced :
    (obj : ℕ) (start lost : List ℕ) (r : Root)
    → IsBalanced start lost r
    → IsBalanced (start ++ obj ∷ []) lost (start_obj obj r).1
unfolding start_obj count_key count
start_obj-IsBalanced obj start lost r b = record {
  single = λ fut. ground (arith, b.single fut);
  balance = λ o. ground (arith, b.balance o, count-append o start (obj ∷ []));
}

done-IsBalanced :
    (fut : ℕ) (start lost : List ℕ) (r : Root)
    → IsBalanced start lost r
    → IsBalanced start lost (done fut r)
unfolding done schedule_cleanup pop_task count
done-IsBalanced fut start lost r b = elim (Option-cases (find fut r.running_objects)) [
  | inl e ↦ rw e (record { single = b.single; balance = b.balance })
  | inr (obj, e) ↦ rw e (record {
    single = λ f. ground (arith, b.single f, count_key-without f fut r.running_objects);
    balance = λ o. ground (
      arith,
      b.balance o,
      count-append o r.running_cleanups (obj ∷ []),
      count-without-found o fut obj r.running_objects e (ground (arith, b.single fut)),
    );
  })
]

pub steps-IsBalanced :
    (es : List Event) (start lost : List ℕ) (r : Root)
    → IsBalanced start lost r
    → IsBalanced (start ++ started es) lost (steps r es)
unfolding steps step start_task
steps-IsBalanced [] start lost r b = rw (append-nil start) b
steps-IsBalanced (starts obj ∷ es) start lost r b =
    rw (← append_assoc start (obj ∷ []) (started es))
      (steps-IsBalanced es (start ++ obj ∷ []) lost _ (start_obj-IsBalanced obj start lost r b))
steps-IsBalanced (starts_task task ∷ es) start lost r b =
    let c = start_obj-IsBalanced task start lost r b in
    rw (← append_assoc start (task ∷ []) (started es)) (
      steps-IsBalanced es (start ++ task ∷ []) lost _
        (record { single = c.single; balance = c.balance }))
steps-IsBalanced (ends fut ∷ es) start lost r b =
    steps-IsBalanced es start lost (done fut r) (done-IsBalanced fut start lost r b)

count_key-delete_done :
    (fut : ℕ) (finished : List ℕ) (d : List (ℕ × ℕ))
    → count_key fut (delete_done finished d) ≤ count_key fut d
unfolding count_key delete_done
count_key-delete_done fut finished [] = omega arith
count_key-delete_done fut finished ((f, obj) ∷ d) =
    ground (arith, count_key-delete_done fut finished d)

count-delete_done :
    (o : ℕ) (finished : List ℕ) (d : List (ℕ × ℕ))
    → count o (owners d)
      ≡ count o (owners (delete_done finished d)) + count o (owners_in finished d)
unfolding count delete_done owners_in
count-delete_done o finished [] = refl
count-delete_done o finished ((f, obj) ∷ d) = ground (arith, count-delete_done o finished d)

-- What is deleted while it runs is lost.
pub delete_done-IsBalanced :
    (finished start lost : List ℕ) (r : Root)
    → IsBalanced start lost r
    → IsBalanced start
        (lost ++ owners_in finished r.running_objects)
        (record r { running_objects = delete_done finished r.running_objects })
delete_done-IsBalanced finished start lost r b = record {
  single = λ fut. omega (arith, b.single fut, count_key-delete_done fut finished r.running_objects);
  balance = λ o. omega (
    arith,
    b.balance o,
    count-append o lost (owners_in finished r.running_objects),
    count-delete_done o finished r.running_objects,
  );
}
