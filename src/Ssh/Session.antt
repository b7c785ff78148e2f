-- ===== src/Ssh/Session.antt =====
-- `AsyncSSH.run` from its beginning: the wait for the server, the first time, and then the command.
pub mod Attempts
pub mod Judged
use rally_ci.Prelude.{ℕ, String, Bool, true, false, Option, none, some, List, if◌then◌else◌}
use rally_ci.Python.{Exception, Result, ok, err}
use rally_ci.Ssh.Command.{Client, Command, Process, Code, killed, Returned, status}
use rally_ci.Ssh.Command as Command
use rally_ci.Ssh.Connect.{Session, wait}

-- The code -1, as if a signal had ended a process.
abbrev pub minus_one : Returned
minus_one = status (killed 1)

-- `AsyncSSH.cb`
abbrev pub log_line {ℓ} : {S : Type ℓ} → String → S → Result (Unit {0}) × S
log_line line s = (ok tt, s)

-- `if raise_on_error: raise`, `else: return -1`
abbrev pub not_ready : Bool → Exception → Result Returned
not_ready raise_on_error e = if raise_on_error then err e else ok minus_one

module _ (connect : ℕ → Result (Unit {0})) (at : ℕ → ℕ) (decode : String → Result String)
    (execute : List String → Process) where
  -- `fuel` is for the attempts to connect, and `start` is the time at which they begin.
  module _ (fuel start : ℕ) (client : Client) (user : Option String) (command : Command)
      (return_output strip_output raise_on_error : Bool) where
    play : Session → Result Returned × Session
    play s =
        Command.run decode execute log_line client user command return_output strip_output
          raise_on_error s

    after_wait : Option (Result (Unit {0}) × Session) → Option (Result Returned × Session)
    after_wait none = none
    after_wait (some (ok tt, s)) = some (play s)
    after_wait (some (err e, s)) = some (not_ready raise_on_error e, s)

    unfoldable pub run : Session → Option (Result Returned × Session)
    unfolding play after_wait Command.run wait
    run s = if s.ready then some (play s) else after_wait (wait connect at fuel start s)
