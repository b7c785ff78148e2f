-- ===== src/Virsh/Script.antt =====
-- `VM.run_script`: a script that runs on a machine, once its address is known.
-- `guest ip command` is what the machine answers; the script's text is the input of the command.
use rally_ci.Prelude.{ℕ, String, ◌<>◌, true, Option, none, some, List, [], ◌∷◌}
use rally_ci.Prelude.Dict.{Dict}
use rally_ci.Python.{ok}
use rally_ci.Python.Exec.{lift}
use rally_ci.Python.Wait.{Wait, exec, ◌>>=◌}
use rally_ci.Python.Text.{concat}
use rally_ci.Config.Data.{Script}
use rally_ci.Virsh.Remote.{Reply, Host, judge}
use rally_ci.Virsh.Machine.{Vm}
use rally_ci.Virsh.Machine.Shutdown.{get_ip}

-- `"".join(["%s='%s' " % tuple(e) for e in env.items()])`
unfoldable pub assignments : Dict String → String
unfolding concat
assignments [] = ""
assignments ((k, v) ∷ env) = concat (k ∷ "='" ∷ v ∷ "' " ∷ []) <> assignments env

unfoldable pub script_command : Dict String → Script → String
unfolding assignments
script_command env script = assignments env <> script.interpreter

module _ (answer : List String → String → Reply) (elapsed : List String → ℕ)
    (guest : String → String → Reply) where
  abbrev pub find_address : Option String → Vm → Wait Host String
  find_address (some ip) vm = exec (lift (ok ip))
  find_address none vm = get_ip answer elapsed 77 300 vm

  -- The machine with its address, which later scripts find.
  unfoldable pub run_script : Dict String → Script → Vm → Wait Host Vm
  unfolding script_command get_ip
  run_script env script vm = do
    ip ← find_address vm.ip vm
    reply ← exec (lift (judge true (guest ip (script_command env script))))
    exec (lift (ok (record vm { ip = some ip })))
