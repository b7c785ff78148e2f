-- ===== src/Stream/Service/Broken.antt =====
-- What a line that is no JSON does to the stream.
use rally_ci.Prelude.{
  String, ◌==◌, ◌≡◌, ◌≢◌, refl, ap, sym, append-nil, ◌∙◌, Bool, true, false, none, List, [], ◌∷◌,
  ◌++◌, All, arith, eq_iff, Bool-cases, inl, inr,
}
use rally_ci.Python.{Exception, Result, ok, err}
use rally_ci.Python.Value.{Value}
use rally_ci.Config.Data.{Data, StreamConfig}
use rally_ci.Task.Create.{Task}
use rally_ci.Ssh.Command.{Client, Process, Returned, text, command_line, feed, after_feed, finish}
use rally_ci.Ssh.Command as Command
use rally_ci.Stream.{Stream, bytes, handle_line, handle_event}
use rally_ci.Stream.Steps.{Step, receives, run as run_steps, step}
use rally_ci.Stream.Service.{SshConfig, client_of, on_line, run}

-- The lines as steps of the stream
abbrev pub received : List String → List Step
received [] = []
received (line ∷ lines) = receives (bytes line) ∷ received lines

module _ (config : Data) (cfg : StreamConfig) (search : String → String → Bool)
    (loads : String → Result Value) (start_handlers : Task → Result (Unit {0}))
    (decode : String → Result String) (execute : List String → Process) where
  -- A line that is read as JSON, or an empty one
  abbrev pub IsRead : String → Type 0
  IsRead line = (line ≢ "") → (v : Value) × (loads line ≡ ok v)

  on_line-ok :
      (line : String) (s : Stream)
      → IsRead line
      → (on_line config cfg search loads start_handlers decode execute line s).0 ≡ ok tt
  unfolding handle_line handle_event
  on_line-ok line s read = elim (Bool-cases (line == "")) [
    | inl empty ↦ rw empty refl
    | inr other ↦ let (v, e) = read (ground (arith, other, eq_iff line "")) in rw (other, e) refl
  ]

  on_line-broken :
      (line : String) (s : Stream) (e : Exception)
      → line ≢ ""
      → loads line ≡ err e
      → on_line config cfg search loads start_handlers decode execute line s ≡ (err e, s)
  unfolding handle_line
  on_line-broken line s e nonempty broken =
      let other : (line == "") ≡ false = ground (arith, nonempty, eq_iff line "") in
      rw (other, broken) refl

  abbrev handled : String → Stream → Result (Unit {0}) × Stream
  handled = on_line config cfg search loads start_handlers decode execute

  abbrev pub steps_of : Stream → List String → Stream
  steps_of s lines = run_steps config cfg search loads start_handlers s (received lines)

  feed-append :
      (before rest : List String) (s : Stream)
      → All IsRead before
      → feed decode handled (before ++ rest) s ≡ feed decode handled rest (steps_of s before)
  unfolding feed run_steps step
  feed-append [] rest s _ = refl
  feed-append (line ∷ before) rest s (read, reads) =
      ap (λ r. after_feed decode (r, (handled line s).1) (feed decode handled (before ++ rest)))
        (on_line-ok line s read)
      ∙ feed-append before rest (handled line s).1 reads

  feed-broken :
      (line : String) (rest : List String) (s : Stream) (e : Exception)
      → line ≢ ""
      → loads line ≡ err e
      → feed decode handled (line ∷ rest) s ≡ (err e, s)
  unfolding feed
  feed-broken line rest s e nonempty broken =
      ap (λ r. after_feed decode r (feed decode handled rest))
        (on_line-broken line s e nonempty broken)

  abbrev process : SshConfig → Process
  process ssh = execute (command_line (client_of ssh) none (text "gerrit stream-events"))

  abbrev completed : Process → Result (Unit {0}) × Stream → Result Returned × Stream
  completed p fed = after_feed decode fed (λ t. (finish decode false true true p, t))

  run-completed :
      (ssh : SshConfig) (s : Stream)
      → run config cfg search loads start_handlers decode execute ssh s
        ≡ completed (process ssh) (feed decode handled (process ssh).lines s)
  unfolding run Command.run
  run-completed ssh s = refl

  feed-read :
      (lines : List String) (s : Stream)
      → All IsRead lines
      → feed decode handled lines s ≡ (ok tt, steps_of s lines)
  unfolding feed
  feed-read lines s reads =
      ap (λ ls. feed decode handled ls s) (sym (append-nil lines)) ∙ feed-append lines [] s reads

  -- If all the lines that the server prints are read as JSON, then the run of the service is that of the
  -- stream on these lines. If one of them is not, then the exception ends the service: the lines before
  -- have been handled, and this line and those after it do nothing.
  pub run-lines :
      (ssh : SshConfig) (s : Stream)
      → let lines =
          (execute (command_line (client_of ssh) none (text "gerrit stream-events"))).lines in
        let after = run config cfg search loads start_handlers decode execute ssh s in
        (All IsRead lines → after.1 ≡ steps_of s lines)
        × ((before rest : List String) (line : String) (e : Exception)
            → lines ≡ before ++ line ∷ rest
            → All IsRead before
            → line ≢ ""
            → loads line ≡ err e
            → after ≡ (err e, steps_of s before))
  run-lines ssh s = (
    λ reads.
        ap (λ r. r.1)
          (run-completed ssh s
            ∙ ap (completed (process ssh)) (feed-read (process ssh).lines s reads)),
    λ before rest line e split reads nonempty broken.
        run-completed ssh s
        ∙ ap (λ ls. completed (process ssh) (feed decode handled ls s)) split
        ∙ ap (completed (process ssh)) (
            feed-append before (line ∷ rest) s reads
            ∙ feed-broken line rest (steps_of s before) e nonempty broken),
  )
