-- ===== src/Status/Life.antt =====
-- `run` and `cleanup` of the status service, which put its callbacks into the lists of the root and take
-- them out. A callback is the number of its service.
pub mod Ignored
pub mod Restored
use rally_ci.Prelude.{ℕ, Bool, true, false, List, [], ◌∷◌, ◌++◌, if◌then◌else◌}
use rally_ci.Python.{value_error, attribute_error, Result, ok, err}
use rally_ci.Python.Exec.{Exec, pure, lift, gets, modify, ◌>>=◌, ◌>>◌}
use rally_ci.Root.{has}
use rally_ci.Periodic.{new_periodic, stop}
use rally_ci.Status.{Status, remove}

-- The lists of the root
pub record Handlers : Type 0 where
  pub task_start_handlers : List ℕ
  pub task_end_handlers : List ℕ
  pub job_update_handlers : List ℕ

-- `self.root.….append(…)`, three times
abbrev pub register : ℕ → Handlers → Handlers
register a h = record {
  task_start_handlers = h.task_start_handlers ++ a ∷ [];
  task_end_handlers = h.task_end_handlers ++ a ∷ [];
  job_update_handlers = h.job_update_handlers ++ a ∷ [];
}

unfoldable pub remove_start : ℕ → Exec Handlers (Unit {0})
unfolding remove
remove_start a h =
    if has a h.task_start_handlers
    then (ok tt, record h { task_start_handlers = remove a h.task_start_handlers })
    else (err value_error, h)

unfoldable pub remove_end : ℕ → Exec Handlers (Unit {0})
unfolding remove
remove_end a h =
    if has a h.task_end_handlers
    then (ok tt, record h { task_end_handlers = remove a h.task_end_handlers })
    else (err value_error, h)

unfoldable pub remove_update : ℕ → Exec Handlers (Unit {0})
unfolding remove
remove_update a h =
    if has a h.job_update_handlers
    then (ok tt, record h { job_update_handlers = remove a h.job_update_handlers })
    else (err value_error, h)

unfoldable pub unregister : ℕ → Exec Handlers (Unit {0})
unfolding remove_start remove_end remove_update
unregister a = do remove_start a; remove_end a; remove_update a

-- A service with the number `id`, and the lists of the root; `listening` is whether it has a server.
pub record Page : Type 0 where
  pub id : ℕ
  pub handlers : Handlers
  pub status : Status
  pub listening : Bool

abbrev on_handlers : Exec Handlers (Unit {0}) → Exec Page (Unit {0})
on_handlers m p = let (r, h) = m p.handlers in (r, record p { handlers = h })

-- `run` up to its endless wait; `create_server` is what the loop answers.
unfoldable pub run : Result (Unit {0}) → Exec Page (Unit {0})
run create_server = do
  modify (λ p. record p {
    status = record p.status { stats_sender = new_periodic };
    handlers = register p.id p.handlers;
  })
  lift create_server
  modify (λ p. record p { listening = true })

-- `close c` is what the connection `c` does when it is closed.
unfoldable pub close_each : (ℕ → Result (Unit {0})) → List ℕ → Exec Page (Unit {0})
close_each close [] = pure tt
close_each close (c ∷ cs) = do lift (close c); close_each close cs

-- `self.srv.close()`: there is no `srv` if the server was not made.
abbrev close_server : Exec Page (Unit {0})
close_server p =
    if p.listening then (ok tt, record p { listening = false }) else (err attribute_error, p)

unfoldable pub cleanup : (ℕ → Result (Unit {0})) → Exec Page (Unit {0})
unfolding unregister close_each
cleanup close = do
  modify (λ p. record p { status = record p.status { stats_sender = stop p.status.stats_sender } })
  id ← gets (λ p. p.id)
  on_handlers (unregister id)
  clients ← gets (λ p. p.status.clients)
  close_each close clients
  close_server
