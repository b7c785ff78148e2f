-- ===== src/Ssh/Scp.antt =====
-- `AsyncSSH.scp_get`: a copy that runs to the end of its output, or is cancelled. It does not wait for the
-- process, so that the code that it returns may still be missing.
use rally_ci.Prelude.{String, Bool, true, Option, List}
use rally_ci.Python.{cancelled_error, Result, ok, err}
use rally_ci.Ssh.Command.{Client, Code, scp_line}

-- How reading the output of the process ends: at its end, with the code if there is one by then, or
-- with the cancellation of the caller.
pub data Reading : Type 0 where
  read_all : Option Code → Reading
  cancelled : Reading

-- `is_terminated` is whether the process was told to end.
pub record Copy : Type 0 where
  pub is_terminated : Bool

abbrev pub outcome : Reading → Copy → Result (Option Code) × Copy
outcome (read_all code) c = (ok code, c)
outcome cancelled c = (err cancelled_error, record c { is_terminated = true })

-- `execute` runs a command line.
unfoldable pub scp_get :
    (List String → Reading) → Client → String → String → Copy → Result (Option Code) × Copy
unfolding scp_line
scp_get execute client src dst c = outcome (execute (scp_line client src dst)) c
