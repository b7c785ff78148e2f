-- ===== src/Ssh/Session/Attempts.antt =====
-- How the wait for a server ends, where an attempt to connect succeeds or is refused.
use rally_ci.Prelude.{
  ℕ, zero, suc, ltb, eqb, eqb_iff, ◌+◌, ◌-◌, ◌≤◌, ◌<◌, ◌≡◌, ◌⊎◌, refl, true, false, Option, some,
  inl, inr, Bool-cases, arith,
}
use rally_ci.Python.{connection_error, plain_error, Result, ok, err}
use rally_ci.Ssh.Connect.{Session, after_attempt, attempts_from, wait}

module _ (connect : ℕ → Result (Unit {0})) (at : ℕ → ℕ) where
  -- An attempt connects or is refused.
  abbrev pub Refusing : Type 0
  Refusing = (k : ℕ) → (connect k ≡ ok tt) ⊎ (connect k ≡ err connection_error)

  -- The attempts from one number up to another are refused, within the time.
  abbrev pub RefusedInTime : ℕ → ℕ → ℕ → Type 0
  RefusedInTime start first k =
      (j : ℕ) → first ≤ j → j < k → (connect j ≡ err connection_error) × (at j - start ≤ 300)

  -- The first attempt that is not refused is the `k`-th, and the time was not over before.
  pub record Reached (start first k : ℕ) : Type 0 where
    pub later : first ≤ k
    pub connected : connect k ≡ ok tt
    pub refused : RefusedInTime start first k

  -- The `k`-th attempt is refused as all before it were, and it is the first after which the time is over.
  pub record Missed (start first k : ℕ) : Type 0 where
    pub later : first ≤ k
    pub last : connect k ≡ err connection_error
    pub over : 300 < at k - start
    pub refused : RefusedInTime start first k

  pub data Tried (start : ℕ) (before : Session)
      : Option (Result (Unit {0}) × Session) → Type 0 where
    reached :
        {k : ℕ}
        → Reached start before.tried k
        → Tried start before (some (ok tt, record { ready = true; tried = suc k }))
    missed :
        {k : ℕ} {after : Session}
        → Missed start before.tried k
        → after.ready ≡ before.ready
        → after.tried ≡ suc k
        → Tried start before (some (err plain_error, after))

  RefusedInTime-suc :
      (start first k : ℕ)
      → RefusedInTime start first k
      → connect k ≡ err connection_error
      → ltb 300 (at k - start) ≡ false
      → RefusedInTime start first (suc k)
  RefusedInTime-suc start first k before refused early j le lt = elim (Bool-cases (eqb j k)) [
    | inl same ↦ let e : j ≡ k = (eqb_iff j k).0 same in rw e (refused, ground (arith, early))
    | inr other ↦ before j le (ground (arith, lt, other))
  ]

  after_attempt-Tried :
      (start : ℕ) (before s : Session) (rest : Option (Result (Unit {0}) × Session))
      → Refusing
      → before.tried ≤ s.tried
      → s.ready ≡ before.ready
      → RefusedInTime start before.tried s.tried
      → (at s.tried - start ≤ 300
          → RefusedInTime start before.tried (suc s.tried)
          → Tried start before rest)
      → Tried start before (
          after_attempt
            (connect s.tried)
            (ltb 300 (at s.tried - start))
            (record s { tried = suc s.tried })
            rest)
  after_attempt-Tried start before s rest refusing le r earlier next = elim (refusing s.tried) [
    | inl e ↦ rw e (reached (record { later = le; connected = e; refused = earlier }))
    | inr e ↦ rw e (elim (Bool-cases (ltb 300 (at s.tried - start))) [
      | inl late ↦ rw late (
          missed (record { later = le; last = e; over = ground (arith, late); refused = earlier }) r
            refl)
      | inr early ↦ rw early (
          next (ground (arith, early))
            (RefusedInTime-suc start before.tried s.tried earlier e early))
    ])
  ]

  attempts_from-Tried :
      (fuel start : ℕ) (before s : Session)
      → Refusing
      → ((k : ℕ) → at k + 1 ≤ at (suc k))
      → before.tried ≤ s.tried
      → s.ready ≡ before.ready
      → RefusedInTime start before.tried s.tried
      → start + 300 < at s.tried + fuel
      → Tried start before (attempts_from connect at (suc fuel) start 300 s)
  unfolding attempts_from
  attempts_from-Tried zero start before s refusing later le r earlier lt =
      after_attempt-Tried start before s _ refusing le r earlier
        (λ early _. absurd (omega (arith, lt, early)))
  attempts_from-Tried (suc fuel) start before s refusing later le r earlier lt =
      after_attempt-Tried start before s _ refusing le r earlier (λ early refused.
        attempts_from-Tried fuel start before (record s { tried = suc s.tried }) refusing later
          (omega (arith, le)) r refused (omega (arith, lt, later s.tried)))

  pub wait-Tried :
      (start : ℕ) (s : Session)
      → Refusing
      → ((k : ℕ) → at k + 1 ≤ at (suc k))
      → start ≤ at s.tried
      → Tried start s (wait connect at 302 start s)
  unfolding wait
  wait-Tried start s refusing later le =
      attempts_from-Tried 301 start s s refusing later (omega arith) refl
        (λ j from below. absurd (omega (arith, from, below))) (omega (arith, le))
