-- ===== src/Virsh/Machine/Shutdown.antt =====
-- `VM.get_ip` and `VM.shutdown`: the loops that ask the host every four seconds.
-- `elapsed` is how long the command after a log takes; the clock of the host's `runtime` counts the
-- sleeps and the commands in seconds. The loops run on fuel, and `none` is a loop that has not ended.
pub mod Ends
pub mod Off
use rally_ci.Prelude.{
  ℕ, zero, suc, ◌+◌, String, Bool, true, false, Option, none, some, List, [], ◌∷◌, ltb, eqb, ◌||◌,
  ◌&&◌, if◌then◌else◌,
}
use Prim.Native.Char.{code}
use rally_ci.Python.{plain_error, Result, ok, err}
use rally_ci.Python.Exec.{Exec}
use rally_ci.Python.Text.{concat, join, splitlines, is_space}
use rally_ci.Utils.{Runtime}
use rally_ci.Virsh.Interfaces.{is_digit, run_of, ◌>>=◌}
use rally_ci.Virsh.Remote.{Reply, Host, run_command, judge, is_error, output_of}
use rally_ci.Virsh.Storage.{Storage}
use rally_ci.Virsh.Machine.{Vm}
use rally_ci.Virsh.Machine.Network.{destroy}

abbrev pub sleep : ℕ → Host → Host
sleep n h = record h { runtime = record h.runtime { clock = h.runtime.clock + n } }

abbrev dot : String → Option String
dot (String.◌∷◌ c s) = if eqb (code c) b'.' then some s else none
dot String.[] = none

-- `\s`
abbrev blank : String → Option String
blank (String.◌∷◌ c s) = if is_space (code c) then some s else none
blank String.[] = none

-- `IP_RE`, `(\d+\.\d+\.\d+\.\d+)\s`, matched at the start of a line: its group.
unfoldable pub ip_of : String → Option String
ip_of line = do
  (a, after_a) ← run_of is_digit line
  from_b ← dot after_a
  (b, after_b) ← run_of is_digit from_b
  from_c ← dot after_b
  (c, after_c) ← run_of is_digit from_c
  from_d ← dot after_c
  (d, after_d) ← run_of is_digit from_d
  _ ← blank after_d
  some (join "." (a ∷ b ∷ c ∷ d ∷ []))

-- The loop over the lines: the first that matches.
unfoldable pub first_ip : List String → Option String
first_ip [] = none
first_ip (line ∷ lines) = elim (ip_of line) [ some ip ↦ some ip | none ↦ first_ip lines ]

module _ (answer : List String → String → Reply) (elapsed : List String → ℕ) where
  -- The host after a pause and a command, and the reply.
  abbrev pub asked : ℕ → String → Host → Reply × Host
  asked pause command h = (
    answer h.log command,
    sleep (elapsed h.log) (sleep pause (run_command answer false command h).1),
  )

  -- The address of the first line that has one; else the loop goes on.
  abbrev pub matched :
      Option String → Host → Option (Result String × Host) → Option (Result String × Host)
  matched (some ip) h rest = some (ok ip, sleep 8 h)
  matched none h rest = rest

  abbrev pub got :
      Result String → Host → Option (Result String × Host) → Option (Result String × Host)
  got (err e) h rest = some (err e, h)
  got (ok output) h rest = matched (first_ip (splitlines output)) h rest

  -- The loop of `get_ip`
  unfoldable pub poll_ip : ℕ → ℕ → String → Host → Option (Result String × Host)
  unfolding run_command
  poll_ip zero deadline command h = none
  poll_ip (suc fuel) deadline command h = elim (ltb deadline h.runtime.clock) [
    | true ↦ some (err plain_error, h)
    | false ↦
        let (reply, next) = asked 4 command h in
        got (output_of reply) next (poll_ip fuel deadline command next)
  ]

  -- `VM.get_ip` where the address is not known. It returns `None` then, and sets `self.ip`.
  unfoldable pub get_ip : ℕ → ℕ → Vm → Host → Option (Result String × Host)
  unfolding poll_ip concat join
  get_ip fuel timeout vm h =
      poll_ip fuel (h.runtime.clock + timeout)
        (concat ("egrep -i '" ∷ join "|" vm.macs ∷ "' /proc/net/arp" ∷ [])) h

  -- The loop of `shutdown`. The clock is compared with `timeout`, not with the deadline.
  unfoldable pub poll_off : ℕ → ℕ → Storage → Bool → Vm → Host → Option (Result (Unit {0}) × Host)
  unfolding run_command destroy concat
  poll_off zero timeout backend storage vm h = none
  poll_off (suc fuel) timeout backend storage vm h =
      let (reply, next) = asked 4 (concat ("virsh list | grep -q " ∷ vm.name ∷ [])) h in
      elim (is_error reply) [
        | true ↦ some (ok tt, next)
        | false ↦ elim (ltb timeout next.runtime.clock) [
          | true ↦ some (destroy answer backend storage vm next)
          | false ↦ poll_off fuel timeout backend storage vm next
        ]
      ]

  abbrev pub told :
      Result Reply → Host → Option (Result (Unit {0}) × Host) → Option (Result (Unit {0}) × Host)
  told (err e) h rest = some (err e, h)
  told (ok _) h rest = rest

  -- `known` is whether the address is known, and `guest` what the machine answers to the command
  -- `shutdown -h now`.
  unfoldable pub shutdown :
      ℕ → ℕ → Storage → Bool → Bool → Reply → Vm → Host → Option (Result (Unit {0}) × Host)
  unfolding poll_off destroy
  shutdown fuel timeout backend storage false guest vm h =
      some (destroy answer backend storage vm h)
  shutdown fuel timeout backend storage true guest vm h =
      told (judge true guest) h (poll_off fuel timeout backend storage vm h)
