-- ===== src/Python/Wait/Keeps.antt =====
-- Invariants of code that may wait, and what holds when it ends.
use rally_ci.Prelude.{Option, none, some}
use rally_ci.Python.{Exception, Result, ok, err}
use rally_ci.Python.Exec.{Exec}
use rally_ci.Python.Exec.Keeps.{Keeps}
use rally_ci.Python.Wait.{Wait, exec, on_error, after_error, resume, ◌>>=◌}
use rally_ci.Python.Wait.Ends.{HasEnded}

-- What holds of the state if the run has ended.
abbrev pub Holds {ℓ κ} : {S : Type ℓ} {A : Type κ} → (S → Type 0) → Option (Result A × S) → Type 0
Holds P none = Unit
Holds P (some (_, s)) = P s

abbrev pub Lasts {ℓ κ} : {S : Type ℓ} {A : Type κ} → (S → Type 0) → Wait S A → Type ℓ
Lasts P m = (s : _) → P s → Holds P (m s)

-- The run has ended: with a value of which Q holds, or with an exception, where E holds.
abbrev pub EndsIn {ℓ κ} :
    {S : Type ℓ} {A : Type κ} → (S → Type 0) → (A → S → Type 0) → Option (Result A × S) → Type 0
EndsIn E Q none = ⊥
EndsIn E Q (some (ok a, s)) = Q a s
EndsIn E Q (some (err e, s)) = E s

Holds-after_error {ℓ κ} :
    {S : Type ℓ} (A : Type κ) (P : S → Type 0) (e : Exception) (r : Result (Unit {0}) × S)
    → P r.1
    → Holds P (some (after_error {A = A} e r))
Holds-after_error A P e (ok _, s) h = h
Holds-after_error A P e (err e', s) h = h

module _ {ℓ κ} {S : Type ℓ} {A : Type κ} (P : S → Type 0) where
  pub Holds-on_error :
      (handler : Exec S (Unit {0})) (o : Option (Result A × S))
      → Keeps P handler
      → Holds P o
      → Holds P (on_error handler o)
  Holds-on_error handler none k h = tt
  Holds-on_error handler (some (ok a, s)) k h = h
  Holds-on_error handler (some (err e, s)) k h = Holds-after_error A P e (handler s) (k s h)

module _ {ℓ κ ν} {S : Type ℓ} {A : Type κ} {B : Type ν} (P : S → Type 0) where
  Holds-resume :
      (o : Option (Result A × S)) (k : A → Wait S B)
      → Holds P o
      → ((a : A) → Lasts P (k a))
      → Holds P (resume o k)
  Holds-resume none k h l = tt
  Holds-resume (some (ok a, s)) k h l = l a s h
  Holds-resume (some (err e, s)) k h l = h

  pub Lasts-bind :
      (m : Wait S A) (k : A → Wait S B) → Lasts P m → ((a : A) → Lasts P (k a)) → Lasts P (m >>= k)
  Lasts-bind m k lm lk s h = Holds-resume (m s) k (lm s h) lk

  pub Lasts-exec :
      (m : Exec S A) (k : A → Wait S B)
      → Keeps P m
      → ((a : A) → Lasts P (k a))
      → Lasts P (exec m >>= k)
  Lasts-exec m k km = Lasts-bind (exec m) k (λ s h. km s h)

  EndsIn-kept :
      (E : S → Type 0) (Q : B → S → Type 0) (o : Option (Result A × S)) (k : A → Wait S B)
      → HasEnded o
      → Holds P o
      → ((s : S) → P s → E s)
      → ((a : A) (s : S) → P s → EndsIn E Q (k a s))
      → EndsIn E Q (resume o k)
  EndsIn-kept E Q none k ended p e q = elim ended [ ]
  EndsIn-kept E Q (some (ok a, s)) k ended p e q = q a s p
  EndsIn-kept E Q (some (err x, s)) k ended p e q = e s p

  -- A part that ends and keeps P, before the rest.
  pub EndsIn-bind :
      (E : S → Type 0) (Q : B → S → Type 0) (m : Wait S A) (k : A → Wait S B) (s : S)
      → Lasts P m
      → HasEnded (m s)
      → P s
      → ((s' : S) → P s' → E s')
      → ((a : A) (s' : S) → P s' → EndsIn E Q (k a s'))
      → EndsIn E Q ((m >>= k) s)
  EndsIn-bind E Q m k s l ended p e q = EndsIn-kept E Q (m s) k ended (l s p) e q

  pub EndsIn-exec :
      (E : S → Type 0) (Q : B → S → Type 0) (m : Exec S A) (k : A → Wait S B) (s : S)
      → Keeps P m
      → P s
      → ((s' : S) → P s' → E s')
      → ((a : A) (s' : S) → P s' → EndsIn E Q (k a s'))
      → EndsIn E Q ((exec m >>= k) s)
  EndsIn-exec E Q m k s km = EndsIn-bind E Q (exec m) k s (λ s' p. km s' p) tt

module _ {ℓ κ ν} {S : Type ℓ} {A : Type κ} {B : Type ν} where
  pub EndsIn-resume :
      (E E' : S → Type 0) (Q : A → S → Type 0) (Q' : B → S → Type 0) (o : Option (Result A × S))
      (k : A → Wait S B)
      → EndsIn E Q o
      → ((s : S) → E s → E' s)
      → ((a : A) (s : S) → Q a s → EndsIn E' Q' (k a s))
      → EndsIn E' Q' (resume o k)
  EndsIn-resume E E' Q Q' none k ended e q = elim ended [ ]
  EndsIn-resume E E' Q Q' (some (ok a, s)) k ended e q = q a s ended
  EndsIn-resume E E' Q Q' (some (err x, s)) k ended e q = e s ended
