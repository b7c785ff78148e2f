-- ===== src/Python/Exec.antt =====
-- Code that changes an object and may raise: what was written before the raise stays written.
pub mod Keeps
pub mod Inversion
use rally_ci.Python.{Exception, Result, ok, err}

abbrev pub Exec {ℓ κ} : Type ℓ → Type κ → Type (ℓ ⊔ κ)
Exec S A = S → Result A × S

module _ {ℓ κ} {S : Type ℓ} {A : Type κ} where
  abbrev pub pure : A → Exec S A
  pure a = λ s. (ok a, s)

  abbrev pub raise : Exception → Exec S A
  raise e = λ s. (err e, s)

  abbrev pub lift : Result A → Exec S A
  lift r = λ s. (r, s)

  abbrev pub gets : (S → A) → Exec S A
  gets f = λ s. (ok (f s), s)

abbrev pub modify {ℓ} : {S : Type ℓ} → (S → S) → Exec S (Unit {0})
modify f = λ s. (ok tt, f s)

module _ {ℓ κ μ} {S : Type ℓ} {A : Type κ} {B : Type μ} where
  abbrev pub follow : Result A → (A → Exec S B) → Exec S B
  follow (ok a) k s = k a s
  follow (err e) k s = (err e, s)

  infixl 5 ◌>>=◌ ◌>>◌
  abbrev pub ◌>>=◌ : Exec S A → (A → Exec S B) → Exec S B
  m >>= k = λ s. let (r, s') = m s in follow r k s'

  abbrev pub ◌>>◌ : Exec S A → Exec S B → Exec S B
  m >> k = m >>= λ _. k
