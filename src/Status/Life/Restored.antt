-- ===== src/Status/Life/Restored.antt =====
-- What a service leaves in the lists of the root when it has been cleaned up.
use rally_ci.Prelude.{ℕ, ◌≡◌, ◌≢◌, refl, All, false, List, [], ◌∷◌, Bool-cases, inl, inr}
use rally_ci.Python.{Result, ok, err}
use rally_ci.Python.Exec.Keeps.{Keeps, Keeps-bind, Keeps-bind-lift}
use rally_ci.Root.{has}
use rally_ci.Status.{Status}
use rally_ci.Status.Life.Ignored.{
  IsWith, Ignores-unregister, IsWith-register, remove-append_new, has-append_self,
}
use rally_ci.Status.Life.{
  Handlers, register, remove_start, remove_end, remove_update, unregister, Page, run, close_each,
  close_server, cleanup,
}

-- What the other services do to the lists.
pub data Change : Type 0 where
  registers unregisters : ℕ → Change

abbrev pub owner : Change → ℕ
owner (registers b) = b
owner (unregisters b) = b

abbrev change : Handlers → Change → Handlers
change h (registers b) = register b h
change h (unregisters b) = (unregister b h).1

unfoldable pub changes : Handlers → List Change → Handlers
unfolding unregister
changes h [] = h
changes h (e ∷ es) = changes (change h e) es

IsWith-changes :
    (a : ℕ) (es : List Change) (h' h : Handlers)
    → All (λ e. owner e ≢ a) es
    → IsWith a h' h
    → IsWith a (changes h' es) (changes h es)
unfolding changes
IsWith-changes a [] h' h _ w = w
IsWith-changes a (registers b ∷ es) h' h (other, others) w =
    IsWith-changes a es _ _ others (IsWith-register a b other h' h w)
IsWith-changes a (unregisters b ∷ es) h' h (other, others) w =
    IsWith-changes a es _ _ others (Ignores-unregister a b other h' h w).1

unregister-IsWith : (a : ℕ) (h' h : Handlers) → IsWith a h' h → unregister a h' ≡ (ok tt, h)
unfolding unregister remove_start remove_end remove_update
unregister-IsWith a h' h w =
    rw (w.starts.present, w.ends.present, w.updates.present)
      (rw (w.starts.rest, w.ends.rest, w.updates.rest) refl)

-- The service is in none of the lists.
pub record IsAbsent (a : ℕ) (h : Handlers) : Type 0 where
  pub starts : has a h.task_start_handlers ≡ false
  pub ends : has a h.task_end_handlers ≡ false
  pub updates : has a h.job_update_handlers ≡ false

register-IsWith : (a : ℕ) (h : Handlers) → IsAbsent a h → IsWith a (register a h) h
register-IsWith a h n = record {
  starts = record { present = has-append_self a _; rest = remove-append_new a _ n.starts };
  ends = record { present = has-append_self a _; rest = remove-append_new a _ n.ends };
  updates = record { present = has-append_self a _; rest = remove-append_new a _ n.updates };
}

module _ (close : ℕ → Result (Unit {0})) (h : Handlers) where
  close_each-handlers : (cs : List ℕ) → Keeps (λ p. p.handlers ≡ h) (close_each close cs)
  unfolding close_each
  close_each-handlers [] = λ p e. e
  close_each-handlers (c ∷ cs) =
      Keeps-bind-lift (λ p. p.handlers ≡ h) (close c) _ (λ _. close_each-handlers cs)

  close_server-handlers : Keeps (λ p. p.handlers ≡ h) close_server
  close_server-handlers p e = elim (Bool-cases p.listening) [ inl l ↦ rw l e | inr l ↦ rw l e ]

  cleanup-IsWith : (p : Page) → IsWith p.id p.handlers h → (cleanup close p).1.handlers ≡ h
  unfolding cleanup
  cleanup-IsWith p w = rw (unregister-IsWith p.id p.handlers h w) (
      Keeps-bind (λ q. q.handlers ≡ h) (close_each close p.status.clients) _
        (close_each-handlers p.status.clients) (λ _. close_server-handlers) _ refl)

-- Whatever the other services put into the lists of the root and take out of them meanwhile, and whether
-- or not the server can be made: when a service has been cleaned up after a run, the lists are as if it
-- had never run, also if a connection raises when it is closed.
pub cleanup-handlers :
    (create_server : Result (Unit {0})) (close : ℕ → Result (Unit {0})) (p : Page) (s : Status)
    (es : List Change)
    → IsAbsent p.id p.handlers
    → All (λ e. owner e ≢ p.id) es
    → let begun = (run create_server p).1 in
      (cleanup close (record begun { handlers = changes begun.handlers es; status = s })).1.handlers
      ≡ changes p.handlers es
unfolding run
cleanup-handlers (ok tt) close p s es absent others =
    cleanup-IsWith close (changes p.handlers es) _
      (IsWith-changes p.id es _ _ others (register-IsWith p.id p.handlers absent))
cleanup-handlers (err e) close p s es absent others =
    cleanup-IsWith close (changes p.handlers es) _
      (IsWith-changes p.id es _ _ others (register-IsWith p.id p.handlers absent))
