-- ===== src/Virsh/Machine/Shutdown/Off.antt =====
-- The loop of `shutdown` ends.
use rally_ci.Prelude.{
  ℕ, zero, suc, ◌+◌, ◌*◌, ◌<◌, String, ◌≡◌, refl, Bool, true, false, Option, some, List, [], ◌∷◌,
  arith, if◌then◌else◌, ltb,
}
use rally_ci.Python.{Result, ok, err}
use rally_ci.Python.Text.{concat}
use rally_ci.Python.Wait.Ends.{HasEnded}
use rally_ci.Virsh.Remote.{Reply, Host, run_command, is_error}
use rally_ci.Virsh.Storage.{Storage}
use rally_ci.Virsh.Machine.{Vm}
use rally_ci.Virsh.Machine.Network.{destroy}
use rally_ci.Virsh.Machine.Shutdown.{asked, poll_off, shutdown, told}

module _ (answer : List String → String → Reply) (elapsed : List String → ℕ) where
  abbrev checked : Vm → Host → Reply × Host
  checked vm h = asked answer elapsed 4 (concat ("virsh list | grep -q " ∷ vm.name ∷ [])) h

  poll_off-suc :
      (fuel timeout : ℕ) (backend : Storage) (storage : Bool) (vm : Vm) (h : Host)
      → poll_off answer elapsed (suc fuel) timeout backend storage vm h ≡ (
          let (reply, next) = checked vm h in
          if is_error reply
          then some (ok tt, next)
          else if ltb timeout next.runtime.clock
          then some (destroy answer backend storage vm next)
          else poll_off answer elapsed fuel timeout backend storage vm next)
  unfolding poll_off
  poll_off-suc fuel timeout backend storage vm h = ground arith

  round-HasEnded :
      (off late : Bool) (over stopped : Result (Unit {0}) × Host)
      (rest : Option (Result (Unit {0}) × Host))
      → (late ≡ false → HasEnded rest)
      → HasEnded (if off then some over else if late then some stopped else rest)
  round-HasEnded true late over stopped rest e = tt
  round-HasEnded false true over stopped rest e = tt
  round-HasEnded false false over stopped rest e = e refl

  poll_off-HasEnded :
      (fuel timeout : ℕ) (backend : Storage) (storage : Bool) (vm : Vm) (h : Host)
      → timeout < h.runtime.clock + suc fuel * 4
      → HasEnded (poll_off answer elapsed (suc fuel) timeout backend storage vm h)
  unfolding run_command
  poll_off-HasEnded zero timeout backend storage vm h lt =
      let (reply, next) = checked vm h in
      rw (poll_off-suc zero timeout backend storage vm h) (
        round-HasEnded (is_error reply) (ltb timeout next.runtime.clock) (ok tt, next)
          (destroy answer backend storage vm next)
          (poll_off answer elapsed zero timeout backend storage vm next)
          (λ early. absurd (ground (arith, lt, early))))
  poll_off-HasEnded (suc fuel) timeout backend storage vm h lt =
      let (reply, next) = checked vm h in
      rw (poll_off-suc (suc fuel) timeout backend storage vm h) (
        round-HasEnded (is_error reply) (ltb timeout next.runtime.clock) (ok tt, next)
          (destroy answer backend storage vm next)
          (poll_off answer elapsed (suc fuel) timeout backend storage vm next)
          (λ early. poll_off-HasEnded fuel timeout backend storage vm next (omega (arith, lt))))

  told-HasEnded :
      (r : Result Reply) (h : Host) (rest : Option (Result (Unit {0}) × Host))
      → HasEnded rest
      → HasEnded (told answer elapsed r h rest)
  told-HasEnded (ok reply) h rest e = e
  told-HasEnded (err x) h rest e = tt

  -- With fuel for 8 rounds, `shutdown` with its timeout of 30 ends.
  pub shutdown-HasEnded :
      (backend : Storage) (storage known : Bool) (guest : Reply) (vm : Vm) (h : Host)
      → HasEnded (shutdown answer elapsed 8 30 backend storage known guest vm h)
  unfolding shutdown
  shutdown-HasEnded backend storage false guest vm h = tt
  shutdown-HasEnded backend storage true guest vm h =
      told-HasEnded _ _ _ (poll_off-HasEnded 7 30 backend storage vm h (omega arith))
