-- ===== src/Status.antt =====
-- rallyci/services/status.py: the connections of the status page and what they are sent. A connection
-- is a number, and `ws` runs for it as long as it is in `serving`.
pub mod Steps
pub mod Sent
pub mod Recent
pub mod Stable
pub mod Stranded
pub mod Dead
pub mod Life
mod Tests
use rally_ci.Prelude.{
  ℕ, suc, String, Bool, true, false, not, ◌&&◌, Option, none, some, List, [], ◌∷◌, ◌++◌, eqb, leb,
  length, if◌then◌else◌,
}
use rally_ci.Python.{Exception, value_error, disconnected_error, Result, ok, err}
use rally_ci.Python.Exec.{Exec, pure, raise, lift, gets, modify, ◌>>=◌, ◌>>◌}
use rally_ci.Python.Value.{Value, Items, nil, cons, arr, str, num, obj, field, end}
use rally_ci.Job.{Job}
use rally_ci.Job.View as JobView
use rally_ci.Task.Create.{Task}
use rally_ci.Task.View as TaskView
use rally_ci.Root.{has}
use rally_ci.Periodic.{Periodic, new_periodic, start, stop, fire}

-- `received` is what the connections were sent, in order, and `sends` counts the attempts.
pub record Status : Type 0 where
  pub clients : List ℕ
  pub serving : List ℕ
  pub made : ℕ
  pub finished : List Value
  pub received : List (ℕ × Value)
  pub sends : ℕ
  pub stats_sender : Periodic

abbrev pub new_status : Status
new_status = record {
  clients = [];
  serving = [];
  made = 0;
  finished = [];
  received = [];
  sends = 0;
  stats_sender = new_periodic;
}

abbrev drop_first {ℓ} : {A : Type ℓ} → List A → List A
drop_first [] = []
drop_first (x ∷ xs) = xs

-- `append` of `collections.deque(maxlen=10)`
unfoldable pub append_ten {ℓ} : {A : Type ℓ} → List A → A → List A
append_ten xs x = if leb 10 (length xs) then drop_first xs ++ x ∷ [] else xs ++ x ∷ []

-- `l.remove(c)` for a `c` that is in the list
unfoldable pub remove : ℕ → List ℕ → List ℕ
remove c [] = []
remove c (d ∷ ds) = let rest = remove c ds in if eqb d c then ds else d ∷ rest

unfoldable pub items : List Value → Items
items [] = nil
items (v ∷ vs) = cons v (items vs)

-- `[t.to_dict() for t in self.root.tasks.values()]`
unfoldable pub task_dicts : ℕ → List Task → Exec Status (List Value)
task_dicts now [] = pure []
task_dicts now (t ∷ ts) = do
  v ← lift (TaskView.to_dict now t)
  vs ← task_dicts now ts
  pure (v ∷ vs)

abbrev all_tasks : List Value → Value
all_tasks vs = obj (field "type" (str "all-tasks") (field "tasks" (arr (items vs)) end))

abbrev task_started_message : Value → Value
task_started_message v = obj (field "type" (str "task-started") (field "task" v end))

abbrev job_status_message : Value → Value
job_status_message v = obj (field "type" (str "job-status-update") (field "job" v end))

abbrev task_finished_message : String → Value
task_finished_message id = obj (field "type" (str "task-finished") (field "id" (str id) end))

-- `Root.get_daemon_statistics`, for what the system says of the memory
abbrev statistics : ℕ → Value
statistics memory =
    obj (field "type" (str "daemon-statistics") (field "memory-used" (num memory) end))

-- The end of `ws`, after the `try` statement
unfoldable pub leave : ℕ → Status → Status
unfolding remove
leave c s =
    let clients = remove c s.clients in
    record s {
      clients = clients;
      serving = remove c s.serving;
      stats_sender =
          if leb (length clients) 0 && s.stats_sender.active
          then stop s.stats_sender
          else s.stats_sender;
    }

-- What the body of the `try` statement raises: only ClientDisconnectedError is caught.
unfoldable pub on_exception : ℕ → Exception → Status → Status
unfolding leave
on_exception c disconnected_error s = leave c s
on_exception c _ s = record s { serving = remove c s.serving }

-- The beginning of `ws`
unfoldable pub open_connection : Status → Status
open_connection s = record s {
  clients = s.clients ++ s.made ∷ [];
  serving = s.serving ++ s.made ∷ [];
  made = suc s.made;
  stats_sender = if s.stats_sender.active then s.stats_sender else start s.stats_sender;
}

-- `deliver k c message` is what the k-th `send_str` does, which sends `message` to the connection `c`.
module _ (deliver : ℕ → ℕ → Value → Result (Unit {0})) where
  abbrev sent : ℕ → Value → Result (Unit {0}) → Exec Status (Unit {0})
  sent c message (ok tt) s =
      (ok tt, record s { received = s.received ++ (c, message) ∷ []; sends = suc s.sends })
  sent c message (err e) s = (err e, record s { sends = suc s.sends })

  unfoldable pub send : ℕ → Value → Exec Status (Unit {0})
  send c message s = sent c message (deliver s.sends c message) s

  unfoldable pub send_each : Value → List ℕ → Exec Status (Unit {0})
  unfolding send
  send_each message [] = pure tt
  send_each message (c ∷ cs) = do send c message; send_each message cs

  -- What one connection raises ends the loop.
  unfoldable pub send_all : Value → Exec Status (Unit {0})
  unfolding send_each
  send_all message s = send_each message s.clients s

  unfoldable pub task_started_cb : ℕ → Task → Exec Status (Unit {0})
  unfolding send_all
  task_started_cb now t = do v ← lift (TaskView.to_dict now t); send_all (task_started_message v)

  unfoldable pub job_status_cb : ℕ → Job → Exec Status (Unit {0})
  unfolding send_all
  job_status_cb now j = send_all (job_status_message (JobView.to_dict now j))

  unfoldable pub task_finished_cb : ℕ → Task → Exec Status (Unit {0})
  unfolding send_all append_ten
  task_finished_cb now t = do
    v ← lift (TaskView.to_dict now t)
    modify (λ s. record s { finished = append_ten s.finished v })
    send_all (task_finished_message t.id)

  -- The timer `t` fires. What `_send_daemon_statistic` raises is logged by the loop.
  abbrev send_statistics : ℕ → Bool × Periodic → Status → Status
  send_statistics memory (false, p) s = record s { stats_sender = p }
  send_statistics memory (true, p) s =
      (send_all (statistics memory) (record s { stats_sender = p })).1

  unfoldable pub tick : ℕ → ℕ → Status → Status
  unfolding send_all
  tick t memory s = send_statistics memory (fire t s.stats_sender) s

  abbrev unless_raised : ℕ → Result (Unit {0}) × Status → Status
  unless_raised c (ok tt, s) = s
  unless_raised c (err e, s) = on_exception c e s

  -- The first message of the connection `c`, which shows the tasks of the root at the time `now` and
  -- the last that have ended.
  unfoldable pub greet : ℕ → List Task → ℕ → Exec Status (Unit {0})
  unfolding task_dicts send
  greet now tasks c = do
    vs ← task_dicts now tasks
    finished ← gets (λ s. s.finished)
    send c (all_tasks (vs ++ finished))

  -- `ws` up to the loop
  unfoldable pub connect : ℕ → List Task → Status → Status
  unfolding on_exception greet open_connection
  connect now tasks s = unless_raised s.made (greet now tasks s.made (open_connection s))
