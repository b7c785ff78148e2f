-- ===== src/Ssh/Tests.antt =====
-- A command that fails after a line, and a server that answers the second attempt.
use rally_ci.Prelude.{
  ℕ, zero, suc, String, ◌≡◌, ◌↔◌, ◌≢◌, refl, true, false, none, some, List, [], ◌∷◌, ◌+◌, arith,
  inl, inr,
}
use rally_ci.Python.{ssh_error, connection_error, Result, ok, err}
use rally_ci.Python.Text.{concat}
use rally_ci.Ssh.Connect.{Waited, wait, wait-Waited}
use rally_ci.Ssh.Command.{Client, Process, exited, status, text, command_line, write_line, run}
use rally_ci.Ssh.Session as Session
use rally_ci.Ssh.Session.Attempts.{Refusing}
use rally_ci.Ssh.Session.Judged.{Printed, Agrees, run-judged}
use rally_ci.Ssh.Command.Outcome.{run-ssh_error}

abbrev client : Client
client = record { username = "ci"; hostname = "host"; key = some "id"; port = "22" }

abbrev execute : List String → Process
execute line = record { lines = "no space\n" ∷ []; code = exited 1 }

abbrev decode : String → Result String
decode s = ok s

command_line-client :
    command_line client none (text "df -h")
    ≡ "ssh" ∷ "-T" ∷ "-o" ∷ "StrictHostKeyChecking=no" ∷ "ci@host" ∷ "-p" ∷ "22" ∷ "-i" ∷ "id"
      ∷ "df" ∷ "-h" ∷ []
unfolding command_line
command_line-client = refl

run-ssh_error_example :
    (let after =
        run decode execute write_line client none (text "df -h") false true true ("start\n" ∷ []) in
      ((after.0 ≡ err ssh_error) ↔ ((true ≡ true) × (true ≡ true)))
      × (false ≡ false → true ≡ false → after.0 ≡ ok (status (exited 1)))
      × (after.1 ≡ "start\n" ∷ "no space\n" ∷ []))
run-ssh_error_example =
    run-ssh_error decode execute client none (text "df -h") false true true ("start\n" ∷ [])
      (λ e. cc) (λ s e. cc)

abbrev connect : ℕ → Result (Unit {0})
connect zero = err connection_error
connect (suc _) = ok tt

wait-Waited_example :
    Waited connect
      (λ k. 100 + k)
      (record { ready = false; tried = 0 })
      (wait connect (λ k. 100 + k) 302 100 (record { ready = false; tried = 0 }))
wait-Waited_example =
    wait-Waited connect (λ k. 100 + k) 100 (record { ready = false; tried = 0 }) (λ k. omega arith)
      (omega arith)

no_space-lines : (execute []).lines ≢ []
no_space-lines e = cc

decode-no_space : decode (concat ("no space\n" ∷ [])) ≡ ok "no space\n"
unfolding concat
decode-no_space = refl

abbrev disk_full : Printed decode (execute (command_line client none (text "df -h")))
disk_full = record {
  number = 1;
  ended = refl;
  some_line = no_space-lines;
  text = "no space\n";
  decoded = decode-no_space;
}

connect-Refusing : Refusing connect (λ k. 100 + k)
connect-Refusing zero = inr refl
connect-Refusing (suc k) = inl refl

run-judged_example :
    Agrees connect
      (λ k. 100 + k)
      decode
      execute
      client
      none
      (text "df -h")
      true
      true
      false
      100
      1
      "no space\n"
      (record { ready = false; tried = 0 })
      (Session.run connect
        (λ k. 100 + k)
        decode
        execute
        302
        100
        client
        none
        (text "df -h")
        true
        true
        false
        (record { ready = false; tried = 0 }))
run-judged_example =
    run-judged connect (λ k. 100 + k) decode execute client none (text "df -h") true true false
      disk_full 100 (record { ready = false; tried = 0 }) connect-Refusing (λ k. omega arith)
      (omega arith)
