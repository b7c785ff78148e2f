-- ===== src/Ssh/Session/Judged.antt =====
-- The replies of hosts that the provider works with are what `AsyncSSH.run` does.
use rally_ci.Prelude.{
  ℕ, zero, suc, ◌+◌, ◌≤◌, ◌≡◌, refl, ap, ◌∙◌, String, Bool, true, false, Option, some, List, [],
  ◌∷◌, ◌≢◌, if◌then◌else◌, inl, inr, Bool-cases,
}
use rally_ci.Python.{plain_error, Exception, Result, ok, err}
use rally_ci.Python.Text.{concat}
use rally_ci.Ssh.Command.{
  Client, Command, Process, Code, exited, killed, Returned, status, output, strip, command_line,
  feed, after_feed, finish, report, value, has_failed,
}
use rally_ci.Ssh.Command as Command
use rally_ci.Ssh.Connect.{Session, wait}
use rally_ci.Ssh.Session.{minus_one, log_line, not_ready, play, after_wait, run}
use rally_ci.Ssh.Session.Attempts.{Refusing, Reached, Missed, Tried, reached, missed, wait-Tried}
use rally_ci.Virsh.Remote.{Reply, judge}
use rally_ci.Virsh.Remote as Remote

-- What a caller of `run` gets for a reply of the host.
abbrev pub returned : Bool → Result Reply → Result Returned
returned return_output (err e) = err e
returned false (ok (Remote.exited n out)) = ok (status (exited n))
returned true (ok (Remote.exited n out)) = ok (output out)
returned return_output (ok Remote.unreachable) = ok minus_one

feed-log_line :
    {S : Type 0} (decode : String → Result String) (lines : List String) (s : S)
    → feed decode log_line lines s ≡ (ok tt, s)
unfolding feed
feed-log_line decode [] s = refl
feed-log_line decode (line ∷ lines) s = feed-log_line decode lines s

-- A program that has ended by itself, with something printed.
pub record Printed (decode : String → Result String) (p : Process) : Type 0 where
  pub number : ℕ
  pub ended : p.code ≡ exited number
  pub some_line : p.lines ≢ []
  pub text : String
  pub decoded : decode (concat p.lines) ≡ ok text

finish-returned :
    (decode : String → Result String) (return_output strip_output raise_on_error : Bool) (n : ℕ)
    (lines : List String) (text : String)
    → lines ≢ []
    → decode (concat lines) ≡ ok text
    → finish decode return_output strip_output raise_on_error
        (record { lines = lines; code = exited n })
      ≡ returned return_output
          (judge raise_on_error (Remote.exited n (if strip_output then strip text else text)))
unfolding finish concat strip
finish-returned decode ro so re n [] text some_line d = absurd (some_line refl)
finish-returned decode false so false zero (l ∷ ls) text some_line d = refl
finish-returned decode false so true zero (l ∷ ls) text some_line d = refl
finish-returned decode true so false zero (l ∷ ls) text some_line d = rw d refl
finish-returned decode true so true zero (l ∷ ls) text some_line d = rw d refl
finish-returned decode false so false (suc n) (l ∷ ls) text some_line d = refl
finish-returned decode true so false (suc n) (l ∷ ls) text some_line d = rw d refl
finish-returned decode ro so true (suc n) (l ∷ ls) text some_line d = refl

not_ready-returned :
    (return_output raise_on_error : Bool) (e : Exception)
    → e ≡ plain_error
    → not_ready raise_on_error e ≡ returned return_output (judge raise_on_error Remote.unreachable)
not_ready-returned return_output true e plain = ap err plain
not_ready-returned true false e plain = refl
not_ready-returned false false e plain = refl

if_true : {A : Type 0} (x y : A) {b : Bool} → b ≡ true → (if b then x else y) ≡ x
if_true x y e = ap (λ b. if b then x else y) e

if_false : {A : Type 0} (x y : A) {b : Bool} → b ≡ false → (if b then x else y) ≡ y
if_false x y e = ap (λ b. if b then x else y) e

module _ (connect : ℕ → Result (Unit {0})) (at : ℕ → ℕ) (decode : String → Result String)
    (execute : List String → Process) (client : Client) (user : Option String) (command : Command)
    (return_output strip_output raise_on_error : Bool) where
  -- What a run returns for a reply of the host
  abbrev pub replied : Reply → Session → Option (Result Returned × Session)
  replied reply after = some (returned return_output (judge raise_on_error reply), after)

  abbrev pub printed : ℕ → String → Reply
  printed n text = Remote.exited n (if strip_output then strip text else text)

  -- The run is what the model makes of a reply: where the server was ready, or is reached by an attempt
  -- to connect, that of the program; where all attempts are refused until the time is over, none.
  pub data Agrees (start n : ℕ) (text : String) (before : Session)
      : Option (Result Returned × Session) → Type 0 where
    was_ready : before.ready ≡ true → Agrees start n text before (replied (printed n text) before)
    was_reached :
        {k : ℕ}
        → before.ready ≡ false
        → Reached connect at start before.tried k
        → Agrees start n text before
            (replied (printed n text) (record { ready = true; tried = suc k }))
    was_missed :
        {k : ℕ}
        → before.ready ≡ false
        → Missed connect at start before.tried k
        → Agrees start n text before
            (replied Remote.unreachable (record { ready = false; tried = suc k }))

  after_feed-log_line :
      (p : Process) (s : Session)
      → after_feed decode
          (feed decode log_line p.lines s)
          (λ t. (finish decode return_output strip_output raise_on_error p, t))
        ≡ (finish decode return_output strip_output raise_on_error p, s)
  after_feed-log_line p s = rw (feed-log_line decode p.lines s) refl

  play-judged :
      (p : Printed decode (execute (command_line client user command))) (start : ℕ) (s : Session)
      → play connect at decode execute 302 start client user command return_output strip_output
          raise_on_error s
        ≡ (
          returned return_output (
              judge raise_on_error
                (Remote.exited p.number (if strip_output then strip p.text else p.text))),
          s,
        )
  unfolding play Command.run
  play-judged p start s =
      let process = execute (command_line client user command) in
      after_feed-log_line process s
      ∙ ap
          (λ c. (
            finish decode return_output strip_output raise_on_error
                (record { lines = process.lines; code = c }),
            s,
          ))
          p.ended
      ∙ ap (λ r. (r, s))
          (finish-returned decode return_output strip_output raise_on_error p.number process.lines
            p.text p.some_line p.decoded)

  after_wait-judged :
      (p : Printed decode (execute (command_line client user command))) (start : ℕ) (s : Session)
      (o : Option (Result (Unit {0}) × Session))
      → s.ready ≡ false
      → Tried connect at start s o
      → Agrees start p.number p.text s (
          after_wait connect at decode execute 302 start client user command return_output
            strip_output raise_on_error o)
  unfolding after_wait
  after_wait-judged p start s _ unready (reached {k} r) =
      rw (play-judged p start (record { ready = true; tried = suc k })) (was_reached unready r)
  after_wait-judged p start s _ unready (missed {k} {after} m r t) =
      rw (not_ready-returned return_output raise_on_error plain_error refl, r ∙ unready, t)
        (was_missed unready m)

  run-eq :
      (start : ℕ) (s : Session)
      → let play_now =
          play connect at decode execute 302 start client user command return_output strip_output
            raise_on_error s in
        let waited =
          after_wait connect at decode execute 302 start client user command return_output
            strip_output raise_on_error
            (wait connect at 302 start s) in
        run connect at decode execute 302 start client user command return_output strip_output
          raise_on_error s
        ≡ (if s.ready then some play_now else waited)
  unfolding run
  run-eq start s = refl

  -- If each attempt to connect succeeds or is refused and takes at least a second, and the program
  -- ends by itself with a text printed, then fuel for 302 attempts is enough: `run` ends. Where the server
  -- was ready before, or the first attempt that is not refused comes before the time is over, `run` gives
  -- what the provider's model of a host makes of the exit code and the text, and the server is ready
  -- afterwards; else it gives what that model makes of an unreachable host, after the attempt at which
  -- the time was over, and the server is not ready.
  pub run-judged :
      (p : Printed decode (execute (command_line client user command))) (start : ℕ) (s : Session)
      → Refusing connect at
      → ((k : ℕ) → at k + 1 ≤ at (suc k))
      → start ≤ at s.tried
      → Agrees start p.number p.text s (
          run connect at decode execute 302 start client user command return_output strip_output
            raise_on_error s)
  run-judged p start s refusing later le = elim (Bool-cases s.ready) [
    | inl ready ↦
        rw (run-eq start s ∙ if_true _ _ ready ∙ ap some (play-judged p start s)) (was_ready ready)
    | inr unready ↦ rw (run-eq start s ∙ if_false _ _ unready) (
        after_wait-judged p start s (wait connect at 302 start s) unready
          (wait-Tried connect at start s refusing later le))
  ]
