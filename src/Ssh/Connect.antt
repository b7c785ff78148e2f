-- ===== src/Ssh/Connect.antt =====
-- `AsyncSSH.wait`: attempts to connect, one second apart, until the server answers or the time is up.
use rally_ci.Prelude.{
  ℕ, zero, suc, ◌+◌, ◌-◌, ◌≤◌, ◌<◌, ◌≡◌, refl, Bool, true, false, Option, none, some, ltb, arith,
  if◌then◌else◌, Bool-cases, inl, inr,
}
use rally_ci.Python.{connection_error, plain_error, Exception, Result, ok, err}

-- `ready` is `self._ready`; the k-th attempt from `tried` on ends at the time `at k`.
pub record Session : Type 0 where
  pub ready : Bool
  pub tried : ℕ

-- `except ConnectionError`
abbrev pub is_refused : Exception → Bool
is_refused connection_error = true
is_refused _ = false

-- What an attempt says: connected; refused, to be tried again; or another exception, which is raised.
abbrev pub after_attempt :
    Result (Unit {0})
    → Bool
    → Session
    → Option (Result (Unit {0}) × Session)
    → Option (Result (Unit {0}) × Session)
after_attempt (ok tt) late s rest = some (ok tt, record s { ready = true })
after_attempt (err e) late s rest =
    if is_refused e then if late then some (err plain_error, s) else rest else some (err e, s)

-- `connect k` is what the k-th call of `asyncio.open_connection` does, and `at k` the time after it.
module _ (connect : ℕ → Result (Unit {0})) (at : ℕ → ℕ) where
  -- The endless loop, on fuel.
  unfoldable pub attempts_from : ℕ → ℕ → ℕ → Session → Option (Result (Unit {0}) × Session)
  attempts_from zero start timeout s = none
  attempts_from (suc fuel) start timeout s =
      let next = record s { tried = suc s.tried } in
      after_attempt (connect s.tried) (ltb timeout (at s.tried - start)) next
        (attempts_from fuel start timeout next)

  unfoldable pub wait : ℕ → ℕ → Session → Option (Result (Unit {0}) × Session)
  unfolding attempts_from
  wait fuel start s = attempts_from fuel start 300 s

  -- How waiting ends: ready, after an attempt that connected; or with an exception, not made ready.
  pub data Waited (before : Session) : Option (Result (Unit {0}) × Session) → Type 0 where
    connected :
        {k : ℕ}
        → connect k ≡ ok tt
        → Waited before (some (ok tt, record { ready = true; tried = suc k }))
    raised :
        {e : Exception} {after : Session}
        → after.ready ≡ before.ready
        → Waited before (some (err e, after))

  after_attempt-Waited :
      (before s : Session) (result : Result (Unit {0})) (late : Bool)
      (rest : Option (Result (Unit {0}) × Session))
      → s.ready ≡ before.ready
      → connect s.tried ≡ result
      → (late ≡ false → Waited before rest)
      → Waited before (after_attempt result late (record s { tried = suc s.tried }) rest)
  after_attempt-Waited before s (ok tt) late rest r e w = connected e
  after_attempt-Waited before s (err x) late rest r e w = elim (Bool-cases (is_refused x)) [
    | inl refused ↦
        rw refused (elim (Bool-cases late) [
          | inl over ↦ rw over (raised r)
          | inr early ↦ rw early (w early)
        ])
    | inr other ↦ rw other (raised r)
  ]

  attempts_from-Waited :
      (fuel start : ℕ) (before s : Session)
      → ((k : ℕ) → at k + 1 ≤ at (suc k))
      → s.ready ≡ before.ready
      → start + 300 < at s.tried + fuel
      → Waited before (attempts_from (suc fuel) start 300 s)
  unfolding attempts_from
  attempts_from-Waited zero start before s later r lt =
      after_attempt-Waited before s (connect s.tried) _ _ r refl
        λ early. absurd (ground (arith, lt, early))
  attempts_from-Waited (suc fuel) start before s later r lt =
      after_attempt-Waited before s (connect s.tried) _ _ r refl λ early.
        attempts_from-Waited fuel start before (record s { tried = suc s.tried }) later r
          (omega (arith, lt, later s.tried))

  -- If every attempt ends at least a second after the one before it, and the first one not before
  -- `start`, then fuel for 302 attempts is enough: `wait` ends, ready after an attempt that connected, or
  -- with an exception and no readier than before.
  pub wait-Waited :
      (start : ℕ) (s : Session)
      → ((k : ℕ) → at k + 1 ≤ at (suc k))
      → start ≤ at s.tried
      → Waited s (wait 302 start s)
  unfolding wait
  wait-Waited start s later le = attempts_from-Waited 301 start s s later refl (omega (arith, le))
