-- ===== src/Python/Wait/Ends.antt =====
-- Runs that end, whatever the state that they start in.
use rally_ci.Prelude.{Option, none, some}
use rally_ci.Python.{Result, ok, err}
use rally_ci.Python.Exec.{Exec}
use rally_ci.Python.Wait.{Wait, exec, on_error, resume, ◌>>=◌}

-- A run that has ended.
abbrev pub HasEnded {ℓ} : {A : Type ℓ} → Option A → Type 0
HasEnded none = ⊥
HasEnded (some a) = Unit {0}

abbrev pub Ends {ℓ κ} : {S : Type ℓ} {A : Type κ} → Wait S A → Type ℓ
Ends {S} m = (h : S) → HasEnded (m h)

module _ {ℓ κ μ} {S : Type ℓ} {A : Type κ} {B : Type μ} where
  HasEnded-resume :
      (o : Option (Result A × S)) (k : A → Wait S B)
      → HasEnded o
      → ((a : A) → Ends (k a))
      → HasEnded (resume o k)
  HasEnded-resume none k e ends = elim e [ ]
  HasEnded-resume (some (ok a, h)) k _ ends = ends a h
  HasEnded-resume (some (err e, h)) k _ ends = tt

  pub Ends-bind :
      (m : Wait S A) (k : A → Wait S B) → Ends m → ((a : A) → Ends (k a)) → Ends (m >>= k)
  Ends-bind m k em ek h = HasEnded-resume (m h) k (em h) ek

  pub HasEnded-bind :
      (m : Wait S A) (k : A → Wait S B) (h : S)
      → HasEnded (m h)
      → ((a : A) → Ends (k a))
      → HasEnded ((m >>= k) h)
  HasEnded-bind m k h = HasEnded-resume (m h) k

  pub Ends-exec : (m : Exec S A) (k : A → Wait S B) → ((a : A) → Ends (k a)) → Ends (exec m >>= k)
  Ends-exec m k = Ends-bind (exec m) k (λ h. tt)

pub HasEnded-on_error {ℓ κ} :
    {S : Type ℓ} {A : Type κ} (handler : Exec S (Unit {0})) (o : Option (Result A × S))
    → HasEnded o
    → HasEnded (on_error handler o)
HasEnded-on_error handler none e = elim e [ ]
HasEnded-on_error handler (some (ok a, h)) _ = tt
HasEnded-on_error handler (some (err e, h)) _ = tt
