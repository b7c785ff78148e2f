-- ===== src/Status/Sent.antt =====
-- Who is sent what, and what sending leaves as it is.
use rally_ci.Prelude.{
  ℕ, suc, All, ◌+◌, ◌≡◌, refl, List, [], ◌∷◌, ◌++◌, map, append_assoc, append-nil, length, arith,
  ap, sym, ◌∙◌,
}
use rally_ci.Python.{Exception, Result, ok, err}
use rally_ci.Python.Exec.Keeps.{Keeps, Keeps-bind, Keeps-bind-lift}
use rally_ci.Python.Value.{Value}
use rally_ci.Task.Create.{Task}
use rally_ci.Task.View as TaskView
use rally_ci.Status.{Status, send, send_each, send_all, task_dicts, sent, greet}

-- The two states differ in what was sent at most.
pub record Same (s t : Status) : Type 0 where
  pub clients : t.clients ≡ s.clients
  pub serving : t.serving ≡ s.serving
  pub made : t.made ≡ s.made
  pub finished : t.finished ≡ s.finished

pub Same-refl : (s : Status) → Same s s
Same-refl s = record { clients = refl; serving = refl; made = refl; finished = refl }

pub task_dicts-Same : (s : Status) (now : ℕ) (ts : List Task) → Keeps (Same s) (task_dicts now ts)
unfolding task_dicts
task_dicts-Same s now [] = λ t h. h
task_dicts-Same s now (t ∷ ts) =
    Keeps-bind-lift (Same s) (TaskView.to_dict now t) _
      (λ v. Keeps-bind (Same s) (task_dicts now ts) _ (task_dicts-Same s now ts) (λ vs t' h. h))

module _ (deliver : ℕ → ℕ → Value → Result (Unit {0})) where
  sent-Same :
      (s : Status) (c : ℕ) (message : Value) (r : Result (Unit {0}))
      → Keeps (Same s) (sent deliver c message r)
  sent-Same s c message (ok tt) t h = record {
    clients = h.clients;
    serving = h.serving;
    made = h.made;
    finished = h.finished;
  }
  sent-Same s c message (err e) t h = record {
    clients = h.clients;
    serving = h.serving;
    made = h.made;
    finished = h.finished;
  }

  pub send-Same : (s : Status) (c : ℕ) (message : Value) → Keeps (Same s) (send deliver c message)
  unfolding send
  send-Same s c message t h = sent-Same s c message (deliver t.sends c message) t h

  pub send_each-Same :
      (s : Status) (message : Value) (cs : List ℕ) → Keeps (Same s) (send_each deliver message cs)
  unfolding send_each
  send_each-Same s message [] = λ t h. h
  send_each-Same s message (c ∷ cs) =
      Keeps-bind (Same s) (send deliver c message) _ (send-Same s c message)
        (λ _. send_each-Same s message cs)

  pub send_all-Same : (s : Status) (message : Value) → Keeps (Same s) (send_all deliver message)
  unfolding send_all
  send_all-Same s message t h = send_each-Same s message t.clients t h

  pub greet-Same :
      (s : Status) (now : ℕ) (tasks : List Task) (c : ℕ)
      → Keeps (Same s) (greet deliver now tasks c)
  unfolding greet
  greet-Same s now tasks c =
      Keeps-bind (Same s) (task_dicts now tasks) _ (task_dicts-Same s now tasks)
        (λ vs t h. send-Same s c _ t h)

  -- The clients that take the message, at whatever attempt.
  abbrev pub Take : Value → List ℕ → Type 0
  Take message cs = All (λ c. (k : ℕ) → deliver k c message ≡ ok tt) cs

  -- The state when the message was sent to all of `cs`.
  abbrev pub delivered : Value → List ℕ → Status → Status
  delivered message cs s = record s {
    received = s.received ++ map (λ c. (c, message)) cs;
    sends = s.sends + length cs;
  }

  delivered-one :
      (message : Value) (c : ℕ) (cs : List ℕ) (s : Status)
      → delivered message cs
          (record s { received = s.received ++ (c, message) ∷ []; sends = suc s.sends })
        ≡ delivered message (c ∷ cs) s
  delivered-one message c cs s =
      let sum : suc s.sends + length cs ≡ s.sends + suc (length cs) = omega arith in
      rw (append_assoc s.received ((c, message) ∷ []) (map (λ d. (d, message)) cs), sum) refl

  delivered-none : (message : Value) (s : Status) → delivered message [] s ≡ s
  delivered-none message s =
      let sum : s.sends + 0 ≡ s.sends = omega arith in rw (append-nil s.received, sum) refl

  send_each-append :
      (message : Value) (cs ds : List ℕ) (s : Status)
      → Take message cs
      → send_each deliver message (cs ++ ds) s
        ≡ send_each deliver message ds (delivered message cs s)
  unfolding send_each send
  send_each-append message [] ds s h = rw (delivered-none message s) refl
  send_each-append message (c ∷ cs) ds s (h, hs) = rw (h s.sends) (
      send_each-append message cs ds _ hs
      ∙ ap (send_each deliver message ds) (delivered-one message c cs s))

  -- If every client takes a message, then it is sent to all of them, in order. If those before one take
  -- it and that one raises, then it is sent to those before and to no other, and what the one raised
  -- reaches the caller.
  pub send_all_lem :
      (message : Value) (s : Status)
      → (Take message s.clients
          → send_all deliver message s ≡ (ok tt, delivered message s.clients s))
        × ((before after : List ℕ) (c : ℕ) (e : Exception)
            → s.clients ≡ before ++ c ∷ after
            → Take message before
            → ((k : ℕ) → deliver k c message ≡ err e)
            → ((send_all deliver message s).0 ≡ err e)
              × ((send_all deliver message s).1.received
                  ≡ s.received ++ map (λ d. (d, message)) before))
  unfolding send_all send_each send
  send_all_lem message s = (
    λ take.
        ap (λ cs. send_each deliver message cs s) (sym (append-nil s.clients))
        ∙ send_each-append message s.clients [] s take,
    λ before after c e split take failing.
        rw
          (
            ap (λ cs. send_each deliver message cs s) split
                ∙ send_each-append message before (c ∷ after) s take,
            failing (s.sends + length before),
          )
          (refl, refl),
  )
