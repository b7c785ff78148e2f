-- ===== src/Runner/Outcome.antt =====
-- What the runner's result says of the scripts that were started.
use mathlib.Core.Path.{ap}
use rally_ci.Prelude.{
  ℕ, String, ◌≡◌, refl, ◌↔◌, inl, inr, none, some, List, [], ◌∷◌, ◌++◌, map, arith, append_assoc,
  append-nil, sym, ◌∙◌, Option-cases,
}
use rally_ci.Prelude.Dict.{Dict, lookup}
use rally_ci.Python.{Exception, key_error, ssh_error, Result, ok, err}
use rally_ci.Python.Exec.{follow}
use rally_ci.Python.Value.{Value}
use rally_ci.Config.Data.{Data, RunnerConfig, RunnerLocal, VmLocal, Script}
use rally_ci.Job.{Job, Run, or_else}
use rally_ci.Runner.{zip, run_scripts, Machines, caught, play_script}
use rally_ci.Runner.Plan.{plan, play_list, or_go_on, play_all-eq-play_list}

module _ (config : Data) (run_script : Machines) (env : Dict Value) where
  -- What the start of a script gives, after those of `before`.
  abbrev pub Gives : List (String × String) → String → String → Result (Unit {0}) → Type 0
  Gives before vm name result =
      (s : Script) × (lookup name config.script ≡ some s) × (run_script before vm s env ≡ result)

  -- The scripts succeed, each after those before it.
  abbrev pub Succeed : List (String × String) → List (String × String) → Type 0
  Succeed before [] = Unit {0}
  Succeed before ((vm, name) ∷ rest) =
      Gives before vm name (ok tt) × Succeed (before ++ (vm, name) ∷ []) rest

  -- The scripts of `done` succeed, and the next one of the plan ends with an SSHError.
  pub record Stops (before all_scripts after : List (String × String)) : Type 0 where
    pub done : List (String × String)
    pub vm : String
    pub name : String
    pub rest : List (String × String)
    pub split : all_scripts ≡ done ++ (vm, name) ∷ rest
    pub succeeded : Succeed before done
    pub failed : Gives (before ++ done) vm name (err ssh_error)
    pub started : after ≡ before ++ done ++ (vm, name) ∷ []

  Stops-cons :
      {before l after : List (String × String)} (vm name : String)
      → Gives before vm name (ok tt)
      → Stops (before ++ (vm, name) ∷ []) l after
      → Stops before ((vm, name) ∷ l) after
  Stops-cons {before} {l} {after} vm name g s = record {
    done = (vm, name) ∷ s.done;
    vm = s.vm;
    name = s.name;
    rest = s.rest;
    split = ap (λ m. (vm, name) ∷ m) s.split;
    succeeded = (g, s.succeeded);
    failed =
        let (t, found, result) = s.failed in
        (t, found, rw (append_assoc before ((vm, name) ∷ []) s.done) at result);
    started = rw (append_assoc before ((vm, name) ∷ []) s.done) at s.started;
  }

  Stops-first :
      {before l : List (String × String)} (vm name : String)
      → Gives before vm name (err ssh_error)
      → Stops before ((vm, name) ∷ l) (before ++ (vm, name) ∷ [])
  Stops-first {before} {l} vm name (t, found, result) = record {
    done = [];
    vm = vm;
    name = name;
    rest = l;
    split = refl;
    succeeded = tt;
    failed = (t, found, rw (append-nil before) result);
    started = rw (append-nil before);
  }

module _ (notify : Job → Result (Unit {0})) (quiet : (j : Job) → notify j ≡ ok tt) (config : Data)
    (run_script : Machines) where
  abbrev started : String → String → Run → Run
  started vm name r = record {
    job = record r.job { status = name };
    sent = r.sent ++ record r.job { status = name } ∷ [];
    scripts = r.scripts ++ (vm, name) ∷ [];
  }

  -- A script that is configured is started, and nothing else changes but the status.
  play_script-found :
      (vm name : String) (r : Run) (s : Script)
      → lookup name config.script ≡ some s
      → play_script notify config run_script vm name r
        ≡ (caught (run_script r.scripts vm s r.job.env), started vm name r)
  unfolding play_script
  play_script-found vm name r s e = rw e (simp quiet)

  play_list-found :
      (vm name : String) (l : List (String × String)) (r : Run) (s : Script)
      → lookup name config.script ≡ some s
      → play_list notify config run_script ((vm, name) ∷ l) r
        ≡ follow
            (caught (run_script r.scripts vm s r.job.env))
            (or_go_on notify config run_script (play_list notify config run_script l))
            (started vm name r)
  unfolding play_list
  play_list-found vm name l r s e = rw (play_script-found vm name r s e)

  play_list-missing :
      (vm name : String) (l : List (String × String)) (r : Run)
      → lookup name config.script ≡ none
      → (play_list notify config run_script ((vm, name) ∷ l) r).0 ≡ err key_error
  unfolding play_list play_script
  play_list-missing vm name l r e = rw e

  -- One script of the list: it is not configured, or it is started with some result.
  data First (vm name : String) (l : List (String × String)) (r : Run) : Type 0 where
    missing :
        (play_list notify config run_script ((vm, name) ∷ l) r).0 ≡ err key_error
        → First vm name l r
    passed :
        Gives config run_script r.job.env r.scripts vm name (ok tt)
        → play_list notify config run_script ((vm, name) ∷ l) r
          ≡ play_list notify config run_script l (started vm name r)
        → First vm name l r
    stopped :
        Gives config run_script r.job.env r.scripts vm name (err ssh_error)
        → play_list notify config run_script ((vm, name) ∷ l) r ≡ (ok (some 1), started vm name r)
        → First vm name l r
    raised :
        (x : Exception)
        → (play_list notify config run_script ((vm, name) ∷ l) r).0 ≡ err x
        → First vm name l r

  First-started :
      (vm name : String) (l : List (String × String)) (r : Run) (s : Script)
      → lookup name config.script ≡ some s
      → (result : Result (Unit {0})) → run_script r.scripts vm s r.job.env ≡ result
      → First vm name l r
  First-started vm name l r s e (ok u) e' =
      passed (s, e, e') (play_list-found vm name l r s e ∙ rw e')
  First-started vm name l r s e (err ssh_error) e' =
      stopped (s, e, e') (play_list-found vm name l r s e ∙ rw e')
  First-started vm name l r s e (err x) e' = raised x (rw (play_list-found vm name l r s e, e'))

  First-cases : (vm name : String) (l : List (String × String)) (r : Run) → First vm name l r
  First-cases vm name l r = elim (Option-cases (lookup name config.script)) [
    | inl e ↦ missing (play_list-missing vm name l r e)
    | inr (s, e) ↦ First-started vm name l r s e (run_script r.scripts vm s r.job.env) refl
  ]

  play_list-none :
      (l : List (String × String)) (r : Run)
      → (play_list notify config run_script l r).0 ≡ ok none
      → Succeed config run_script r.job.env r.scripts l
        × ((play_list notify config run_script l r).1.scripts ≡ r.scripts ++ l)
  play_list-none [] r h = unfold play_list in (tt, sym (append-nil r.scripts))
  play_list-none ((vm, name) ∷ l) r h = elim (First-cases vm name l r) [
    | missing e ↦ cc
    | passed g e ↦
        let (s, c) = play_list-none l (started vm name r) (rw e at h) in
        ((g, s), rw e (c ∙ append_assoc r.scripts ((vm, name) ∷ []) l))
    | stopped g e ↦ cc
    | raised x e ↦ cc
  ]

  play_list-some :
      (l : List (String × String)) (r : Run) (n : ℕ)
      → (play_list notify config run_script l r).0 ≡ ok (some n)
      → (n ≡ 1)
        × Stops config run_script r.job.env r.scripts l
            (play_list notify config run_script l r).1.scripts
  play_list-some [] r n h = unfold play_list in cc
  play_list-some ((vm, name) ∷ l) r n h = elim (First-cases vm name l r) [
    | missing e ↦ cc
    | passed g e ↦
        let (one, s) = play_list-some l (started vm name r) n (rw e at h) in
        (one, rw e (Stops-cons config run_script r.job.env vm name g s))
    | stopped g e ↦
        (ground (arith, rw e at h), rw e (Stops-first config run_script r.job.env vm name g))
    | raised x e ↦ cc
  ]

  -- The converse of `play_list-none`.
  play_list-Succeed :
      (l : List (String × String)) (r : Run)
      → Succeed config run_script r.job.env r.scripts l
      → (play_list notify config run_script l r).0 ≡ ok none
  play_list-Succeed [] r s = unfold play_list in refl
  play_list-Succeed ((vm, name) ∷ l) r ((s, found, passes), rest) =
      rw (play_list-found vm name l r s found, passes)
        (play_list-Succeed l (started vm name r) rest)

  -- If the provider gives the machines, then the runner returns None exactly when every script that
  -- the job lists for them is configured and succeeds, each after those before it, and it has then
  -- started all of them in the order of the machines; it returns a number only if that is 1, and then
  -- it stopped at the first script that failed. No update handler raises, by assumption.
  pub run_scripts-outcome :
      (providers : Dict (List VmLocal → Result (List String))) (cfg : RunnerConfig)
      (local_cfg : RunnerLocal) (r : Run) (get_vms : List VmLocal → Result (List String))
      (vms : List String)
      → lookup cfg.provider providers ≡ some get_vms
      → get_vms local_cfg.vms ≡ ok vms
      → let all_scripts = plan (zip vms (map (λ vm. or_else vm.scripts []) local_cfg.vms)) in
        let played = run_scripts notify config run_script providers cfg local_cfg r in
        (played.0 ≡ ok none ↔ Succeed config run_script r.job.env r.scripts all_scripts)
        × (played.0 ≡ ok none → played.1.scripts ≡ r.scripts ++ all_scripts)
        × ((n : ℕ)
            → played.0 ≡ ok (some n)
            → (n ≡ 1) × Stops config run_script r.job.env r.scripts all_scripts played.1.scripts)
  unfolding run_scripts
  run_scripts-outcome providers cfg local_cfg r get_vms vms found given =
      let pairs = zip vms (map (λ vm. or_else vm.scripts []) local_cfg.vms) in
      rw (found, given, play_all-eq-play_list notify config run_script pairs)
        (
          (λ h. (play_list-none (plan pairs) r h).0, play_list-Succeed (plan pairs) r),
          λ h. (play_list-none (plan pairs) r h).1,
          play_list-some (plan pairs) r,
        )
