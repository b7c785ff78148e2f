-- ===== src/Status/Stranded.antt =====
-- The connections that the page serves and those that it sends to.
use rally_ci.Prelude.{
  ℕ, suc, ◌-◌, ◌≤◌, ◌<◌, ◌≡◌, ◌≢◌, refl, ap, ◌∙◌, true, false, List, [], ◌∷◌, ◌++◌, eqb, leb, ltb,
  arith, if◌then◌else◌,
}
use rally_ci.Python.{Exception, disconnected_error, Result}
use rally_ci.Python.Value.{Value}
use rally_ci.Root.{has}
use rally_ci.Root.Sound.{count}
use rally_ci.Status.{Status, new_status, remove, leave, open_connection}
use rally_ci.Status.Steps.{Event, receives, raises, receive, step, steps}
use rally_ci.Status.Stable.{IsStable, abandon, on_exception-abandon, after_steps}

count-remove :
    (c d : ℕ) (cs : List ℕ)
    → count c (remove d cs) ≡ (if eqb d c then count c cs - 1 else count c cs)
unfolding count remove
count-remove c d [] = ground arith
count-remove c d (b ∷ bs) = ground (arith, count-remove c d bs)

count-append_one :
    (c d : ℕ) (cs : List ℕ)
    → count c (cs ++ d ∷ []) ≡ (if eqb d c then suc (count c cs) else count c cs)
unfolding count
count-append_one c d [] = ground arith
count-append_one c d (b ∷ bs) = ground (arith, count-append_one c d bs)

has-count : (c : ℕ) (cs : List ℕ) → has c cs ≡ (if leb 1 (count c cs) then true else false)
unfolding count has
has-count c [] = refl
has-count c (b ∷ bs) = ground (arith, has-count c bs)

-- A connection that was made is a client once at most, and one that is served is a client.
pub record IsWired (s : Status) : Type 0 where
  pub once : (c : ℕ) → count c s.clients ≤ (if ltb c s.made then 1 else 0)
  pub listed : (c : ℕ) → count c s.serving ≤ count c s.clients

IsWired-IsStable : IsStable IsWired
unfolding open_connection leave abandon
IsWired-IsStable = record {
  alike = λ s t a w. record {
    once = λ c. rw (a.clients, a.made) (w.once c);
    listed = λ c. rw (a.clients, a.serving) (w.listed c);
  };
  opened = λ s w. record {
    once = λ c. ground (arith, w.once c, count-append_one c s.made s.clients);
    listed = λ c. ground (
      arith,
      w.listed c,
      count-append_one c s.made s.clients,
      count-append_one c s.made s.serving,
    );
  };
  left = λ d s _ w. record {
    once = λ c. ground (arith, w.once c, count-remove c d s.clients);
    listed =
        λ c. ground (arith, w.listed c, count-remove c d s.clients, count-remove c d s.serving);
  };
  abandoned = λ d s _ w. record {
    once = w.once;
    listed = λ c. ground (arith, w.listed c, count-remove c d s.serving);
  };
}

new_status-IsWired : IsWired new_status
unfolding count
new_status-IsWired = record { once = λ c. ground arith; listed = λ c. omega arith }

-- A client that no `ws` serves any more.
record IsStranded (c : ℕ) (s : Status) : Type 0 where
  client : count c s.clients ≡ 1
  unserved : count c s.serving ≡ 0
  old : c < s.made

IsStranded-IsStable : (c : ℕ) → IsStable (IsStranded c)
unfolding open_connection leave abandon
IsStranded-IsStable c = record {
  alike = λ s t a i. record {
    client = rw a.clients i.client;
    unserved = rw a.serving i.unserved;
    old = rw a.made i.old;
  };
  opened = λ s i. record {
    client = ground (arith, i.client, i.old, count-append_one c s.made s.clients);
    unserved = ground (arith, i.unserved, i.old, count-append_one c s.made s.serving);
    old = omega (arith, i.old);
  };
  left = λ d s h i. record {
    client =
        ground (arith, i.client, i.unserved, h, has-count d s.serving, count-remove c d s.clients);
    unserved = ground (arith, i.unserved, count-remove c d s.serving);
    old = i.old;
  };
  abandoned = λ d s _ i. record {
    client = i.client;
    unserved = ground (arith, i.unserved, count-remove c d s.serving);
    old = i.old;
  };
}

abandon-IsStranded :
    (c : ℕ) (s : Status) → IsWired s → has c s.serving ≡ true → IsStranded c (abandon c s)
unfolding abandon
abandon-IsStranded c s w h = record {
  client = ground (arith, h, has-count c s.serving, w.once c, w.listed c);
  unserved = ground (arith, w.once c, w.listed c, count-remove c c s.serving);
  old = ground (arith, h, has-count c s.serving, w.once c, w.listed c);
}

module _ (deliver : ℕ → ℕ → Value → Result (Unit {0})) where
  steps-append :
      (es fs : List Event) (s : Status)
      → steps deliver s (es ++ fs) ≡ steps deliver (steps deliver s es) fs
  unfolding steps
  steps-append [] fs s = refl
  steps-append (e ∷ es) fs s = steps-append es fs (step deliver s e)

  step-abandon :
      (c : ℕ) (e : Exception) (s : Status)
      → e ≢ disconnected_error
      → has c s.serving ≡ true
      → step deliver s (receives c (raises e)) ≡ abandon c s
  unfolding step receive
  step-abandon c e s other h = rw (h, on_exception-abandon c e s other) refl

  -- Whatever connections open and end, whatever is sent to them and whichever of them raise: a
  -- connection is in `clients` once at most, and only if it was made; and one that is served is in
  -- `clients`.
  pub steps-IsWired : (es : List Event) → IsWired (steps deliver new_status es)
  steps-IsWired es = after_steps IsWired-IsStable deliver es new_status new_status-IsWired

  -- If `receive` raises something other than ClientDisconnectedError for a connection that is served,
  -- then whatever happens afterwards, it stays in `clients`, and it is not served.
  pub abandoned-stays :
      (before after : List Event) (c : ℕ) (e : Exception)
      → e ≢ disconnected_error
      → has c (steps deliver new_status before).serving ≡ true
      → let s = steps deliver new_status (before ++ receives c (raises e) ∷ after) in
        (has c s.clients ≡ true) × (has c s.serving ≡ false)
  unfolding steps
  abandoned-stays before after c e other h =
      let s = steps deliver new_status before in
      let i =
        after_steps (IsStranded-IsStable c) deliver after (abandon c s)
          (abandon-IsStranded c s (steps-IsWired before) h) in
      rw
        (
          steps-append before (receives c (raises e) ∷ after) new_status
              ∙ ap (λ t. steps deliver t after) (step-abandon c e s other h),
          has-count c (steps deliver (abandon c s) after).clients,
          has-count c (steps deliver (abandon c s) after).serving,
          i.client,
          i.unserved,
        )
        (refl, refl)
