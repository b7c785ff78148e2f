-- ===== src/Python/Wait.antt =====
-- Code that may wait without end: `none` is a run that has not ended on its fuel.
pub mod Ends
pub mod Keeps
use rally_ci.Prelude.{Option, none, some}
use rally_ci.Python.{Exception, Result, ok, err}
use rally_ci.Python.Exec.{Exec}

abbrev pub Wait {ℓ κ} : Type ℓ → Type κ → Type (ℓ ⊔ κ)
Wait S A = S → Option (Result A × S)

module _ {ℓ κ} {S : Type ℓ} {A : Type κ} where
  abbrev pub exec : Exec S A → Wait S A
  exec m s = some (m s)

  -- `except: handler; raise`: what the handler itself raises comes in place of the exception.
  abbrev pub after_error : Exception → Result (Unit {0}) × S → Result A × S
  after_error e (ok tt, s) = (err e, s)
  after_error e (err e', s) = (err e', s)

  abbrev pub on_error : Exec S (Unit {0}) → Option (Result A × S) → Option (Result A × S)
  on_error handler none = none
  on_error handler (some (ok a, s)) = some (ok a, s)
  on_error handler (some (err e, s)) = some (after_error e (handler s))

module _ {ℓ κ μ} {S : Type ℓ} {A : Type κ} {B : Type μ} where
  abbrev pub resume : Option (Result A × S) → (A → Wait S B) → Option (Result B × S)
  resume none k = none
  resume (some (ok a, s)) k = k a s
  resume (some (err e, s)) k = some (err e, s)

  infixl 5 ◌>>=◌ ◌>>◌
  abbrev pub ◌>>=◌ : Wait S A → (A → Wait S B) → Wait S B
  (m >>= k) s = resume (m s) k

  abbrev pub ◌>>◌ : Wait S A → Wait S B → Wait S B
  m >> k = m >>= λ _. k
