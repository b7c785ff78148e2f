-- ===== src/Utils.antt =====
-- rallyci/utils.py, with the clock and the random source that the program reads.
-- `sample n length` is what the n-th call of `random.sample(string.ascii_letters, length)` draws, and `byte n` what the n-th call
-- of `random.randint(0, 255)` does.
use rally_ci.Prelude.{
  ℕ, zero, suc, ◌+◌, ◌/◌, ◌%◌, String, ◌<>◌, List, [], ◌∷◌, ltb, eqb, if◌then◌else◌,
}
use rally_ci.Python.{unbound_local_error, Result, ok, err}
use rally_ci.Python.Exec.{Exec}
use rally_ci.Python.Text.{concat, join, digit}

pub record Runtime : Type 0 where
  pub clock : ℕ
  pub draws : ℕ
  pub sample : ℕ → ℕ → String
  pub byte : ℕ → ℕ

unfoldable pub get_rnd_name : String → ℕ → Exec Runtime String
unfolding concat
get_rnd_name prefix length r = (
  ok (concat ("_rci_" ∷ prefix ∷ r.sample r.draws length ∷ [])),
  record r { draws = suc r.draws },
)

abbrev hex_digit : ℕ → String
hex_digit n =
    if ltb n 10
    then digit n
    else if eqb n 10
    then "a"
    else if eqb n 11
    then "b"
    else if eqb n 12
    then "c"
    else if eqb n 13
    then "d"
    else if eqb n 14
    then "e"
    else "f"

-- "%02x" % n for a byte
unfoldable pub hex_byte : ℕ → String
hex_byte n = hex_digit (n / 16) <> hex_digit (n % 16)

-- `random.randint(0, 255)`, k times
unfoldable pub bytes_from : ℕ → ℕ → (ℕ → ℕ) → List String
unfolding hex_byte
bytes_from zero n byte = []
bytes_from (suc k) n byte = hex_byte (byte n) ∷ bytes_from k (suc n) byte

unfoldable pub get_rnd_mac : Exec Runtime String
unfolding bytes_from join
get_rnd_mac r =
    (ok ("02:" <> join ":" (bytes_from 5 r.draws r.byte)), record r { draws = r.draws + 5 })

abbrev or_again {ℓ κ} : {S : Type ℓ} {A : Type κ} → Result A × S → (S → Result A × S) → Result A × S
or_again (ok a, s) rest = (ok a, s)
or_again (err e, s) rest = rest s

-- The loop of `retry`, with n rounds left. After it `e` is no longer bound, so `raise e` raises
-- UnboundLocalError. Every exception of the model is an `Exception` in the Python of the program.
unfoldable pub attempts {ℓ κ} : {S : Type ℓ} {A : Type κ} → ℕ → Exec S A → Exec S A
attempts zero fun s = (err unbound_local_error, s)
attempts (suc n) fun s = or_again (fun s) (attempts n fun)

unfoldable pub retry {ℓ κ} : {S : Type ℓ} {A : Type κ} → Exec S A → Exec S A
unfolding attempts
retry fun = attempts 4 fun
