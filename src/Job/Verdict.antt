-- ===== src/Job/Verdict.antt =====
-- How the status of a job that has run and its `error` go together.
use rally_ci.Prelude.{
  if◌then◌else◌, eq_iff, ◌≢◌, ℕ, ◌≡◌, ◌↔◌, refl, Bool, false, Option, some, arith, String, inl, inr,
  ◌∙◌, Option-cases,
}
use rally_ci.Prelude.Dict.{lookup}
use rally_ci.Python.{
  Exception, key_error, timeout_error, cancelled_error, Result, ok, err, Result-cases,
}
use rally_ci.Python.Exec.{Exec}
use rally_ci.Config.Data.{Data, RunnerConfig, RunnerLocal}
use rally_ci.Job.{Job, failed, Run, set_status, on_exception, settle, run}

-- The status says SUCCESS exactly when the error counts as none.
abbrev pub IsConsistent : Job → Type 0
IsConsistent j = (j.status ≡ "SUCCESS") ↔ (failed j.error ≡ false)

abbrev pub final : Result (Option ℕ) → String
final (ok error) = if failed error then "FAILURE" else "SUCCESS"
final (err timeout_error) = "TIMEOUT"
final (err cancelled_error) = "CANCELLED"
final (err _) = "ERROR"

pub final-returned :
    (failure : Bool)
    → (◌≡◌ {A = String} (if failure then "FAILURE" else "SUCCESS") "SUCCESS") ↔ (failure ≡ false)
final-returned failure = ground (arith, eq_iff "FAILURE" "SUCCESS")

pub final-raised : (x : Exception) → final (err x) ≢ "SUCCESS"
final-raised timeout_error = ground (arith, eq_iff "TIMEOUT" "SUCCESS")
final-raised cancelled_error = ground (arith, eq_iff "CANCELLED" "SUCCESS")
final-raised _ = ground (arith, eq_iff "ERROR" "SUCCESS")

queued_consistent :
    (error : Option ℕ)
    → error ≡ some 254
    → ◌≡◌ {A = String} "queued" "SUCCESS" ↔ (failed error ≡ false)
queued_consistent error e = ground (arith, eq_iff "queued" "SUCCESS")

module _ (notify : Job → Result (Unit {0})) (quiet : (j : Job) → notify j ≡ ok tt) where
  on_exception-status :
      (e : Exception) (r : Run)
      → (on_exception notify e r).1.job ≡ record r.job { status = final (err e) }
  unfolding on_exception
  on_exception-status key_error r = refl
  on_exception-status _ r = refl

  module _ (waited : Exec Run (Option ℕ)) (finished : ℕ) (r : Run) where
    pub settle-returned :
        (error : Option ℕ)
        → (waited r).0 ≡ ok error
        → (settle notify waited finished r).1.job ≡ record (waited r).1.job {
          status = final (ok error);
          error = error;
          finished_at = finished;
        }
    unfolding settle set_status
    settle-returned error e = rw e (simp quiet)

    pub settle-raised :
        (x : Exception)
        → (waited r).0 ≡ err x
        → (settle notify waited finished r).1.job
          ≡ record (waited r).1.job { status = final (err x); finished_at = finished }
    unfolding settle
    settle-raised x e = rw e (rw (on_exception-status x (waited r).1))

    settle-IsConsistent :
        (waited r).1.job.error ≡ some 254 → IsConsistent (settle notify waited finished r).1.job
    settle-IsConsistent fresh = elim (Result-cases (waited r).0) [
      | inl (error, e) ↦ rw (settle-returned error e) (final-returned (failed error))
      | inr (x, e) ↦ rw (settle-raised x e) (ground (arith, final-raised x))
    ]

  -- Whatever the runner and the configuration do, a job that has run has the status SUCCESS if and
  -- only if its `error` counts as none, provided that its `error` was 254 before, that the update
  -- handlers do not raise, and that the runner itself does not assign `error`.
  pub run-IsConsistent :
      (config : Data) (build : RunnerConfig → RunnerLocal → Result (Exec Run (Option ℕ)))
      (started finished : ℕ) (r : Run)
      → r.job.error ≡ some 254
      → ((cfg : RunnerConfig) (local : RunnerLocal) (waited : Exec Run (Option ℕ)) (s : Run)
          → build cfg local ≡ ok waited
          → (waited s).1.job.error ≡ s.job.error)
      → IsConsistent (run notify config build started finished r).1.job
  unfolding run set_status
  run-IsConsistent config build started finished r fresh keeps =
      simp quiet (elim (Option-cases r.job.config.runner) [
        | inl e ↦ rw e (queued_consistent r.job.error fresh)
        | inr (local, e) ↦ rw e (elim (Option-cases (lookup local.name config.runner)) [
          | inl e' ↦ rw e' (queued_consistent r.job.error fresh)
          | inr (cfg, e') ↦ rw e' (elim (Result-cases (build cfg local)) [
            | inl (waited, e'') ↦
                rw e''
                  (settle-IsConsistent waited finished _ (keeps cfg local waited _ e'' ∙ fresh))
            | inr (x, e'') ↦ rw e'' (queued_consistent r.job.error fresh)
          ])
        ])
      ])
