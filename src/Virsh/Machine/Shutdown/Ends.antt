-- ===== src/Virsh/Machine/Shutdown/Ends.antt =====
-- The loops of `get_ip` and `shutdown` end.
use rally_ci.Prelude.{
  ℕ, zero, suc, ◌+◌, ◌*◌, ◌≤◌, ◌<◌, String, ◌≡◌, Bool, true, false, Option, some, List, [], ◌∷◌,
  ltb, arith, if◌then◌else◌, ◌⊎◌, inl, inr, Option-cases,
}
use rally_ci.Python.{plain_error, attribute_error, Result, ok, err}
use rally_ci.Python.Text.{concat, splitlines}
use rally_ci.Virsh.Remote.{Reply, exited, unreachable, Host, run_command, is_error, output_of}
use rally_ci.Virsh.Storage.{Storage}
use rally_ci.Virsh.Machine.{Vm}
use rally_ci.Virsh.Machine.Network.{destroy}
use rally_ci.Virsh.Machine.Shutdown.{asked, got, poll_ip, first_ip, get_ip, poll_off, shutdown}

-- How `get_ip` ends: with an address; because the host cannot be reached; or after the deadline.
pub data Ended (deadline : ℕ) : Option (Result String × Host) → Type 0 where
  found : {ip : String} {h : Host} → Ended deadline (some (ok ip, h))
  lost : {h : Host} → Ended deadline (some (err attribute_error, h))
  late : {h : Host} → deadline < h.runtime.clock → Ended deadline (some (err plain_error, h))

lt-or-ge : (a b : ℕ) → ((ltb a b ≡ true) × (a < b)) ⊎ (ltb a b ≡ false)
lt-or-ge a b = ground arith

ltb-lt : (a b : ℕ) → a < b → ltb a b ≡ true
ltb-lt a b h = ground arith

module _ (answer : List String → String → Reply) (elapsed : List String → ℕ) where
  poll_ip-suc :
      (fuel deadline : ℕ) (command : String) (h : Host)
      → poll_ip answer elapsed (suc fuel) deadline command h ≡ (
          if ltb deadline h.runtime.clock
          then some (err plain_error, h)
          else (let (reply, next) = asked answer elapsed 4 command h in
              got answer elapsed
                (output_of reply)
                next
                (poll_ip answer elapsed fuel deadline command next)))
  unfolding poll_ip
  poll_ip-suc fuel deadline command h = ground arith

  got-Ended :
      (deadline : ℕ) (reply : Reply) (next : Host) (rest : Option (Result String × Host))
      → Ended deadline rest
      → Ended deadline (got answer elapsed (output_of reply) next rest)
  got-Ended deadline unreachable next rest e = lost
  got-Ended deadline (exited n output) next rest e =
      elim (Option-cases (first_ip (splitlines output))) [
        | inl none_found ↦ rw none_found e
        | inr (ip, ip_found) ↦ rw ip_found found
      ]

  poll_ip-Ended :
      (fuel deadline : ℕ) (command : String) (h : Host)
      → deadline < h.runtime.clock + fuel * 4
      → Ended deadline (poll_ip answer elapsed (suc fuel) deadline command h)
  unfolding run_command
  poll_ip-Ended zero deadline command h lt =
      rw (poll_ip-suc zero deadline command h, ltb-lt deadline h.runtime.clock (omega (arith, lt)))
        (late (omega (arith, lt)))
  poll_ip-Ended (suc fuel) deadline command h lt =
      rw (poll_ip-suc (suc fuel) deadline command h) (elim (lt-or-ge deadline h.runtime.clock) [
        | inl (after, gone) ↦ rw after (late gone)
        | inr before ↦ rw before (
            got-Ended deadline _ _ _ (
              poll_ip-Ended fuel deadline command (asked answer elapsed 4 command h).1
                (omega (arith, lt))))
      ])

  pub get_ip-Ended :
      (vm : Vm) (h : Host) → Ended (h.runtime.clock + 300) (get_ip answer elapsed 77 300 vm h)
  unfolding get_ip
  get_ip-Ended vm h = poll_ip-Ended 76 (h.runtime.clock + 300) _ h (omega arith)

  -- If the timeout, a number of seconds, is at most the time of the clock, then `shutdown` of a machine
  -- whose address is known and that takes the command ends at its first check, whatever the deadline:
  -- a machine that is still listed then is destroyed.
  pub shutdown_lem :
      (fuel timeout : ℕ) (backend : Storage) (storage : Bool) (output : String) (vm : Vm) (h : Host)
      → timeout ≤ h.runtime.clock
      → let (reply, next) =
          asked answer elapsed 4 (concat ("virsh list | grep -q " ∷ vm.name ∷ [])) h in
        shutdown answer elapsed (suc fuel) timeout backend storage true (exited 0 output) vm h
        ≡ some (if is_error reply then (ok tt, next) else destroy answer backend storage vm next)
  unfolding shutdown poll_off run_command
  shutdown_lem fuel timeout backend storage output vm h le = ground (arith, le)
