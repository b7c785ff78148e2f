-- ===== src/Python/Exec/Keeps.antt =====
-- Invariants of actions: what holds before holds after, whether the action returns or raises.
use rally_ci.Python.{Result, ok, err}
use rally_ci.Python.Exec.{Exec, follow, lift, ◌>>=◌}

abbrev pub Keeps {ℓ κ μ} : {S : Type ℓ} {A : Type κ} → (S → Type μ) → Exec S A → Type (ℓ ⊔ μ)
Keeps P m = (s : _) → P s → P (m s).1

module _ {ℓ κ μ ν} {S : Type ℓ} {A : Type κ} {B : Type μ} (P : S → Type ν) where
  pub Keeps-follow :
      (r : Result A) (f : A → Exec S B) → ((a : A) → Keeps P (f a)) → Keeps P (follow r f)
  Keeps-follow (ok a) f kf s h = kf a s h
  Keeps-follow (err e) f kf s h = h

  pub Keeps-bind :
      (m : Exec S A) (f : A → Exec S B) → Keeps P m → ((a : A) → Keeps P (f a)) → Keeps P (m >>= f)
  Keeps-bind m f km kf s h = let (r, s') = m s in Keeps-follow r f kf s' (km s h)

  pub Keeps-bind-lift :
      (r : Result A) (f : A → Exec S B) → ((a : A) → Keeps P (f a)) → Keeps P (lift r >>= f)
  Keeps-bind-lift r f kf s h = Keeps-follow r f kf s h
