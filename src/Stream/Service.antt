-- ===== src/Stream/Service.antt =====
-- `Class.run` of rallyci/services/gerrit.py: the stream of events that an ssh client prints. Every line is
-- handled as it comes.
pub mod Broken
use rally_ci.Prelude.{String, Bool, true, false, Option, none, some, List}
use rally_ci.Python.{Result, ok, err}
use rally_ci.Python.Value.{Value}
use rally_ci.Config.Data.{Data, StreamConfig}
use rally_ci.Task.Create.{Task}
use rally_ci.Ssh.Command.{Client, Process, Returned, text, new_client}
use rally_ci.Ssh.Command as Command
use rally_ci.Stream.{Stream, bytes, handle_line}

-- `self.cfg["ssh"]`
pub record SshConfig : Type 0 where
  pub username : Option String
  pub hostname : String
  pub key : Option String
  pub port : Option String

-- The port of gerrit if there is none in the config
abbrev pub port_of : Option String → String
port_of none = "29418"
port_of (some port) = port

unfoldable pub client_of : SshConfig → Client
unfolding new_client
client_of ssh = new_client ssh.username ssh.hostname ssh.key (port_of ssh.port)

module _ (config : Data) (cfg : StreamConfig) (search : String → String → Bool)
    (loads : String → Result Value) (start_handlers : Task → Result (Unit {0}))
    (decode : String → Result String) (execute : List String → Process) where
  -- `cb=self._handle_line`
  abbrev pub on_line : String → Stream → Result (Unit {0}) × Stream
  on_line line s = handle_line config cfg search loads start_handlers (bytes line) s

  -- For a server that is ready
  unfoldable pub run : SshConfig → Stream → Result Returned × Stream
  unfolding client_of Command.run handle_line
  run ssh s =
      Command.run decode execute on_line (client_of ssh) none (text "gerrit stream-events") false
        true true s
