-- ===== src/Python.antt =====
-- What the program uses of Python: exceptions as values, the values that JSON and YAML hold, texts,
-- and the paths of `os.path`.
pub mod Exec
pub mod Wait
pub mod Value
pub mod Text
use rally_ci.Prelude.{◌≡◌, refl, ap, ◌⊎◌, inl, inr}

-- The classes that the code raises or tells apart. `plain_error` is `Exception` itself.
pub data Exception : Type 0 where
  key_error type_error attribute_error value_error index_error unbound_local_error : Exception
  ssh_error timeout_error cancelled_error connection_error os_error plain_error : Exception
  disconnected_error : Exception

pub data Result {ℓ} (A : Type ℓ) : Type ℓ where
  err : Exception → Result A
  ok : A → Result A

module _ {ℓ κ} {A : Type ℓ} {B : Type κ} where
  infixl 5 ◌>>=◌ ◌>>◌
  abbrev pub ◌>>=◌ : Result A → (A → Result B) → Result B
  err e >>= f = err e
  ok a >>= f = f a

  abbrev pub ◌>>◌ : Result A → Result B → Result B
  m >> k = m >>= λ _. k

  -- Inversion of a chain that succeeds.
  pub >>=-eq-ok :
      {b : B} (m : Result A) (k : A → Result B)
      → m >>= k ≡ ok b
      → (a : A) × (m ≡ ok a) × (k a ≡ ok b)
  >>=-eq-ok (err e) k h = cc
  >>=-eq-ok (ok a) k h = (a, refl, h)

pub Result-cases {ℓ} :
    {A : Type ℓ} (r : Result A) → ((a : A) × (r ≡ ok a)) ⊎ ((e : Exception) × (r ≡ err e))
Result-cases (ok a) = inl (a, refl)
Result-cases (err e) = inr (e, refl)

abbrev value_or {ℓ} : {A : Type ℓ} → A → Result A → A
value_or d (ok a) = a
value_or d (err e) = d

pub ok-injective {ℓ} : {A : Type ℓ} {a b : A} → ok a ≡ ok b → a ≡ b
ok-injective {a} e = ap (value_or a) e
