-- ===== src/Runner/Success.antt =====
-- A job that plays its scripts with the ssh runner: what its status says of the scripts.
use rally_ci.Prelude.{
  ℕ, zero, suc, String, ◌≡◌, refl, ap, ◌∙◌, true, false, Option, none, some, List, [], ◌∷◌, ◌++◌,
  map, inl, inr, arith, ◌↔◌,
}
use rally_ci.Prelude.Dict.{Dict, lookup}
use rally_ci.Python.{Result, ok, Result-cases, ok-injective}
use rally_ci.Python.Exec.{Exec}
use rally_ci.Python.Exec.Inversion.{follow-eq-ok}
use rally_ci.Config.Data.{Data, RunnerConfig, RunnerLocal, VmLocal}
use rally_ci.Job.{Job, Run, failed, or_else, or_key_error, set_status, settle, run}
use rally_ci.Job.Verdict.{final-returned, final-raised, settle-returned, settle-raised}
use rally_ci.Runner.{Machines, zip, run_scripts}
use rally_ci.Runner.Plan.{plan}
use rally_ci.Runner.Outcome.{Succeed, run_scripts-outcome}

module _ (notify : Job → Result (Unit {0})) (quiet : (j : Job) → notify j ≡ ok tt) where
  -- The runner of a job whose status is SUCCESS has returned nothing that counts as an error.
  success-returned :
      (waited : Exec Run (Option ℕ)) (finished : ℕ) (r : Run)
      → (settle notify waited finished r).1.job.status ≡ "SUCCESS"
      → (error : Option ℕ) × ((waited r).0 ≡ ok error) × (failed error ≡ false)
  success-returned waited finished r h = elim (Result-cases (waited r).0) [
    | inl (error, e) ↦ (
      error,
      e,
      (final-returned (failed error)).0
          (rw (settle-returned notify quiet waited finished r error e) at h),
    )
    | inr (x, e) ↦
        absurd (final-raised x (rw (settle-raised notify quiet waited finished r x e) at h))
  ]

  -- The job when its runner starts.
  abbrev ready : ℕ → Run → Run
  ready started r =
      let queued = record r.job { status = "queued" } in
      record r {
        job = record queued { started_at = some started; has_runner = true };
        sent = r.sent ++ queued ∷ [];
      }

  run-settle :
      (config : Data) (build : RunnerConfig → RunnerLocal → Exec Run (Option ℕ))
      (started finished : ℕ) (r : Run) (local : RunnerLocal) (cfg : RunnerConfig)
      → r.job.config.runner ≡ some local
      → lookup local.name config.runner ≡ some cfg
      → run notify config (λ c l. ok (build c l)) started finished r
        ≡ settle notify (build cfg local) finished (ready started r)
  unfolding run set_status
  run-settle config build started finished r local cfg e e' = simp (quiet, e, e')

  module _ (config : Data) (run_script : Machines)
      (providers : Dict (List VmLocal → Result (List String))) where
    -- The machines were given, and every script that the job lists for them succeeds.
    pub record Succeeds (cfg : RunnerConfig) (local : RunnerLocal) (r : Run) : Type 0 where
      pub get_vms : List VmLocal → Result (List String)
      pub vms : List String
      pub provided : lookup cfg.provider providers ≡ some get_vms
      pub given : get_vms local.vms ≡ ok vms
      pub succeed :
          Succeed config run_script r.job.env r.scripts
            (plan (zip vms (map (λ vm. or_else vm.scripts []) local.vms)))

    not_one :
        (error : Option ℕ)
        → failed error ≡ false
        → ((n : ℕ) → error ≡ some n → n ≡ 1)
        → error ≡ none
    not_one none e one = refl
    not_one (some zero) e one = absurd (omega (arith, one 0 refl))
    not_one (some (suc n)) e one = cc

    provided_by :
        (o : Option (List VmLocal → Result (List String)))
        (get_vms : List VmLocal → Result (List String))
        → or_key_error o ≡ ok get_vms
        → o ≡ some get_vms
    provided_by none get_vms e = cc
    provided_by (some g) get_vms e = ap some (ok-injective e)

    run_scripts-Succeeds :
        (cfg : RunnerConfig) (local : RunnerLocal) (r : Run) (error : Option ℕ)
        → (run_scripts notify config run_script providers cfg local r).0 ≡ ok error
        → failed error ≡ false
        → Succeeds cfg local r
    unfolding run_scripts
    run_scripts-Succeeds cfg local r error e fine =
        let (get_vms, e₁, h₁) = follow-eq-ok (or_key_error (lookup cfg.provider providers)) _ r e in
        let (vms, e₂, h₂) = follow-eq-ok (get_vms local.vms) _ r h₁ in
        let found = provided_by (lookup cfg.provider providers) get_vms e₁ in
        let (all, started, stopped) =
          run_scripts-outcome notify quiet config run_script providers cfg local r get_vms vms found
            e₂ in
        let none_returned = not_one error fine (λ n is_n. (stopped n (e ∙ ap ok is_n)).0) in
        record {
          get_vms = get_vms;
          vms = vms;
          provided = found;
          given = e₂;
          succeed = all.0 (e ∙ ap ok none_returned);
        }

    -- `config.get_instance`, where the job's runner is the ssh runner.
    abbrev pub ssh_runner : RunnerConfig → RunnerLocal → Result (Exec Run (Option ℕ))
    ssh_runner cfg local = ok (run_scripts notify config run_script providers cfg local)

    -- A job that plays its scripts with the ssh runner ends with the status SUCCESS exactly when the
    -- provider gives the machines and every script that the job lists for them is configured and
    -- succeeds, each after those before it, if the job and its runner are configured and no update
    -- handler raises.
    pub run-Succeeds :
        (started finished : ℕ) (r : Run) (local : RunnerLocal) (cfg : RunnerConfig)
        → r.job.config.runner ≡ some local
        → lookup local.name config.runner ≡ some cfg
        → ((run notify config ssh_runner started finished r).1.job.status ≡ "SUCCESS")
          ↔ Succeeds cfg local r
    run-Succeeds started finished r local cfg e e' =
        let waited = run_scripts notify config run_script providers cfg local in
        rw
          (run-settle config (run_scripts notify config run_script providers) started finished r
            local cfg e e')
          (
            λ h.
                let (error, returned, fine) =
                  success-returned waited finished (ready started r) h in
                let s = run_scripts-Succeeds cfg local (ready started r) error returned fine in
                record {
                  get_vms = s.get_vms;
                  vms = s.vms;
                  provided = s.provided;
                  given = s.given;
                  succeed = s.succeed;
                },
            λ s.
                let (all, _, _) =
                  run_scripts-outcome notify quiet config run_script providers cfg local
                    (ready started r) s.get_vms s.vms s.provided s.given in
                rw
                  (settle-returned notify quiet waited finished (ready started r) none
                    (all.1 s.succeed))
                  refl,
          )
