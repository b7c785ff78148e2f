-- ===== src/Ssh/Command.antt =====
-- `AsyncSSH.run` for a server that is ready: the command line, the lines that it prints, and what the
-- call returns. The temporary file of `stdin` is left out.
pub mod Outcome
use rally_ci.Prelude.{
  ℕ, zero, suc, String, ◌<>◌, ◌==◌, Bool, true, false, ◌&&◌, ◌||◌, not, Option, none, some, List,
  [], ◌∷◌, ◌++◌, eqb, ltb, if◌then◌else◌,
}
use Prim.Native.Char.{code}
use rally_ci.Python.{unbound_local_error, ssh_error, Result, ok, err, ◌>>=◌}
use rally_ci.Python.Text.{concat, split, is_space}

pub record Client : Type 0 where
  pub username : String
  pub hostname : String
  pub key : Option String
  pub port : String

-- A command is split at its spaces if it is a text.
pub data Command : Type 0 where
  text : String → Command
  words : List String → Command

-- `if s:` for an optional text, else `d`.
abbrev pub text_or : Option String → String → String
text_or none d = d
text_or (some s) d = if s == "" then d else s

-- `AsyncSSH.__init__`; `port` is the text of the number.
unfoldable pub new_client : Option String → String → Option String → String → Client
new_client username hostname key port = record {
  username = text_or username "root";
  hostname = hostname;
  key = key;
  port = port;
}

abbrev pub key_option : Option String → List String
key_option none = []
key_option (some key) = if key == "" then [] else "-i" ∷ key ∷ []

abbrev pub words_of : Command → List String
words_of (text command) = split b' ' command
words_of (words command) = command

-- `cmd`
unfoldable pub command_line : Client → Option String → Command → List String
unfolding concat split
command_line client user command =
    ("ssh"
      ∷ "-T"
      ∷ "-o"
      ∷ "StrictHostKeyChecking=no"
      ∷ concat (text_or user client.username ∷ "@" ∷ client.hostname ∷ [])
      ∷ "-p"
      ∷ client.port
      ∷ key_option client.key)
    ++ (words_of command)

-- `scp_get`
unfoldable pub scp_line : Client → String → String → List String
unfolding concat
scp_line client src dst =
    ("scp" ∷ "-B" ∷ "-o" ∷ "StrictHostKeyChecking no" ∷ key_option client.key)
    ++ ("-P"
        ∷ client.port
        ∷ "-r"
        ∷ concat (client.username ∷ "@" ∷ client.hostname ∷ ":" ∷ src ∷ [])
        ∷ dst
        ∷ [])

-- A process that has ended: the lines that `readline` returned, and the exit code, where `killed n` is
-- the code -n of a process that a signal has ended.
pub data Code : Type 0 where
  exited killed : ℕ → Code

pub record Process : Type 0 where
  pub lines : List String
  pub code : Code

-- `if process.returncode`; there is no signal 0.
abbrev pub has_failed : Code → Bool
has_failed (exited zero) = false
has_failed (exited (suc _)) = true
has_failed (killed _) = true

-- What `run` returns: a code, or the output.
pub data Returned : Type 0 where
  status : Code → Returned
  output : String → Returned

unfoldable pub lstrip : String → String
lstrip String.[] = ""
lstrip (String.◌∷◌ c s) = let rest = lstrip s in if is_space (code c) then rest else String.◌∷◌ c s

-- The text without the blanks at its end.
unfoldable pub rstrip : String → String
rstrip String.[] = ""
rstrip (String.◌∷◌ c s) =
    let rest = rstrip s in if is_space (code c) && rest == "" then "" else String.◌∷◌ c rest

unfoldable pub strip : String → String
unfolding lstrip rstrip
strip s = rstrip (lstrip s)

-- The callback of rallyci/runners/ssh.py, which writes a line to the console log.
abbrev pub write_line : String → List String → Result (Unit {0}) × List String
write_line line log = (ok tt, log ++ line ∷ [])

module _ (decode : String → Result String) where
  -- `LOG.error("Command failed: %s" % line)` needs a line.
  abbrev pub report : List String → Result Returned
  report [] = err unbound_local_error
  report (_ ∷ _) = err ssh_error

  abbrev pub value : Bool → Bool → Process → Result Returned
  value false strip_output p = ok (status p.code)
  value true strip_output p = do
    decoded ← decode (concat p.lines)
    ok (output (if strip_output then strip decoded else decoded))

  -- From the end of the process on: `return_output`, `strip_output`, `raise_on_error`.
  unfoldable pub finish : Bool → Bool → Bool → Process → Result Returned
  unfolding concat strip
  finish return_output strip_output raise_on_error p =
      if has_failed p.code && raise_on_error
      then report p.lines
      else value return_output strip_output p

  abbrev pub after_feed {ℓ κ} :
      {S : Type ℓ} {A : Type κ} → Result (Unit {0}) × S → (S → Result A × S) → Result A × S
  after_feed (ok tt, s) rest = rest s
  after_feed (err e, s) rest = (err e, s)

  -- The loop that reads the lines: an exception of the callback ends it.
  unfoldable pub feed {ℓ} :
      {S : Type ℓ} → (String → S → Result (Unit {0}) × S) → List String → S → Result (Unit {0}) × S
  feed cb [] s = (ok tt, s)
  feed cb (line ∷ lines) s = after_feed (cb line s) (feed cb lines)

  -- `execute` runs a command line to its end.
  unfoldable pub run {ℓ} :
      {S : Type ℓ}
      → (List String → Process)
      → (String → S → Result (Unit {0}) × S)
      → Client
      → Option String
      → Command
      → Bool
      → Bool
      → Bool
      → S
      → Result Returned × S
  unfolding feed finish command_line
  run execute cb client user command return_output strip_output raise_on_error s =
      let p = execute (command_line client user command) in
      after_feed (feed cb p.lines s) (λ t. (finish return_output strip_output raise_on_error p, t))
