-- ===== src/Virsh/Remote.antt =====
-- A host as its own commands see it: what `AsyncSSH.run` of the host does with a command.
-- `Host` is what rallyci/providers/virsh.py keeps of a host while machines come and go.
use rally_ci.Prelude.{ℕ, zero, suc, String, Bool, true, false, Option, List, [], ◌∷◌, ◌++◌}
use rally_ci.Python.{attribute_error, ssh_error, plain_error, Result, ok, err}
use rally_ci.Python.Exec.{Exec}
use rally_ci.Utils.{Runtime}

-- `exited status output`, or no connection within the time that `AsyncSSH.wait` allows.
pub data Reply : Type 0 where
  exited : ℕ → String → Reply
  unreachable : Reply

-- Machines are told apart by a number, as Python tells objects apart; `made` is the next one.
-- `log` holds the commands that were run, the first one first.
pub record Host : Type 0 where
  pub log : List String
  pub br_vm : List (Option String × List ℕ)
  pub vms : List ℕ
  pub made : ℕ
  pub runtime : Runtime

-- What `run` makes of a reply, by its argument `raise_on_error`.
abbrev pub judge : Bool → Reply → Result Reply
judge true (exited (suc n) output) = err ssh_error
judge true unreachable = err plain_error
judge _ reply = ok reply

-- `if error:`, where -1 stands for a host that cannot be reached.
abbrev pub is_error : Reply → Bool
is_error (exited zero _) = false
is_error (exited (suc _) _) = true
is_error unreachable = true

-- The output as a text; -1 has no `splitlines`.
abbrev pub output_of : Reply → Result String
output_of (exited _ output) = ok output
output_of unreachable = err attribute_error

-- `answer` is what the host answers to a command after the commands before it.
module _ (answer : List String → String → Reply) where
  unfoldable pub run_command : Bool → String → Exec Host Reply
  run_command raise_on_error command h =
      (judge raise_on_error (answer h.log command), record h { log = h.log ++ command ∷ [] })
