-- ===== src/Ssh/Command/Outcome.antt =====
-- What a command returns to its caller, and what is written to the console log.
use rally_ci.Prelude.{
  String, ◌≡◌, ◌≢◌, ◌↔◌, refl, Bool, true, false, ◌&&◌, Option, List, [], ◌∷◌, ◌++◌, append-nil,
  append_assoc, if◌then◌else◌, inl, inr,
}
use rally_ci.Python.{ssh_error, Result, ok, err, Result-cases}
use rally_ci.Python.Text.{concat}
use rally_ci.Ssh.Command.{
  Client, Command, Process, Returned, status, command_line, has_failed, write_line, report, value,
  finish, feed, run,
}

module _ (decode : String → Result String) where
  feed-write_line :
      (lines log : List String) → feed decode write_line lines log ≡ (ok tt, log ++ lines)
  unfolding feed
  feed-write_line [] log = simp append-nil
  feed-write_line (line ∷ lines) log =
      rw (feed-write_line lines (log ++ line ∷ [])) (simp append_assoc)

  value-no_ssh_error :
      (return_output strip_output : Bool) (p : Process)
      → ((s : String) → decode s ≢ err ssh_error)
      → value decode return_output strip_output p ≢ err ssh_error
  unfolding concat
  value-no_ssh_error false strip_output p total h = cc
  value-no_ssh_error true strip_output p total h = elim (Result-cases (decode (concat p.lines))) [
    | inl (s, e) ↦ absurd (cc (rw e at h))
    | inr (x, e) ↦ total (concat p.lines) (rw e (cc (rw e at h)))
  ]

  reported-eq-ssh_error :
      (bad raise_on_error : Bool) (lines : List String) (returned : Result Returned)
      → lines ≢ []
      → returned ≢ err ssh_error
      → ((if bad && raise_on_error then report decode lines else returned) ≡ err ssh_error)
        ↔ ((bad ≡ true) × (raise_on_error ≡ true))
  reported-eq-ssh_error bad raise_on_error [] returned some_line no_error = absurd (some_line refl)
  reported-eq-ssh_error true true (l ∷ ls) returned some_line no_error =
      (λ _. (refl, refl), λ _. refl)
  reported-eq-ssh_error true false (l ∷ ls) returned some_line no_error =
      (λ e. absurd (no_error e), λ (_, e). cc)
  reported-eq-ssh_error false raise_on_error (l ∷ ls) returned some_line no_error =
      (λ e. absurd (no_error e), λ (e, _). cc)

  -- A command that prints something raises SSHError exactly when it fails and the caller asked for an
  -- error, and its whole output is written to the console log in either case; else a caller that did
  -- not ask for the output gets the exit code. Decoding does not raise SSHError, by assumption.
  pub run-ssh_error :
      (execute : List String → Process) (client : Client) (user : Option String) (command : Command)
      (return_output strip_output raise_on_error : Bool) (log : List String)
      → let p = execute (command_line client user command) in
        let after =
          run decode execute write_line client user command return_output strip_output
            raise_on_error log in
        p.lines ≢ []
        → ((s : String) → decode s ≢ err ssh_error)
        → ((after.0 ≡ err ssh_error) ↔ ((has_failed p.code ≡ true) × (raise_on_error ≡ true)))
          × (return_output ≡ false
              → (has_failed p.code && raise_on_error) ≡ false
              → after.0 ≡ ok (status p.code))
          × (after.1 ≡ log ++ p.lines)
  unfolding run finish
  run-ssh_error execute client user command return_output strip_output raise_on_error log some_line
        total =
      let p = execute (command_line client user command) in
      rw (feed-write_line p.lines log) (
        reported-eq-ssh_error (has_failed p.code) raise_on_error p.lines _ some_line
            (value-no_ssh_error return_output strip_output p total),
        λ no_output fine. rw (fine, no_output) refl,
        refl,
      )
