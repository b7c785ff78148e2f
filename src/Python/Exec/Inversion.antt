-- ===== src/Python/Exec/Inversion.antt =====
-- What a successful action says of its parts.
use rally_ci.Prelude.{◌≡◌, refl}
use rally_ci.Python.{Result, ok, err}
use rally_ci.Python.Exec.{Exec, follow, ◌>>=◌}

module _ {ℓ κ μ} {S : Type ℓ} {A : Type κ} {B : Type μ} where
  pub follow-eq-ok :
      (r : Result A) (f : A → Exec S B) (s : S) {b : B}
      → (follow r f s).0 ≡ ok b
      → (a : A) × (r ≡ ok a) × ((f a s).0 ≡ ok b)
  follow-eq-ok (ok a) f s h = (a, refl, h)
  follow-eq-ok (err e) f s h = cc

  pub bind-eq-ok :
      (m : Exec S A) (f : A → Exec S B) (s : S) {b : B}
      → ((m >>= f) s).0 ≡ ok b
      → (a : A) × ((m s).0 ≡ ok a) × ((f a (m s).1).0 ≡ ok b)
  bind-eq-ok m f s h = follow-eq-ok (m s).0 f (m s).1 h
