-- ===== src/Runner/Cleanup/Destroyed.antt =====
-- Which machines a job's cleanup destroys.
use rally_ci.Prelude.{
  String, ◌≡◌, refl, ap, ◌∙◌, true, Option, List, [], ◌∷◌, ◌++◌, map, All, ◌⊎◌, inl, inr,
  append-nil, append_assoc,
}
use rally_ci.Python.{Exception, cancelled_error, Result, ok, err, ok-injective, Result-cases}
use rally_ci.Python.Exec.{Exec, follow}
use rally_ci.Python.Text.{path_join}
use rally_ci.Job.{or_else}
use rally_ci.Ssh.Command.{Client, Code, scp_line}
use rally_ci.Ssh.Scp.{Reading, read_all, cancelled, scp_get}
use rally_ci.Runner.Cleanup.{Cleaning, Guest, copy, copy_files, copy_all, destroy_all, cleanup}

Reading-cases : (r : Reading) → ((code : Option Code) × (r ≡ read_all code)) ⊎ (r ≡ cancelled)
Reading-cases (read_all code) = inl (code, refl)
Reading-cases cancelled = inr refl

module _ (get_ssh : String → Result Client) (execute : List String → Reading)
    (destroy : String → Result (Unit {0})) (log_path : String) where
  -- The address of the machine is found, and the copy runs to the end of its output, with any exit code.
  abbrev RunsToEnd : String → String × String → Type 0
  RunsToEnd vm (src, dst) =
      (ssh : Client) × (get_ssh vm ≡ ok ssh)
      × (code : Option Code) × (execute (scp_line ssh src (path_join log_path dst)) ≡ read_all code)

  abbrev Copies : String → List (String × String) → Type 0
  Copies vm files = All (RunsToEnd vm) files

  -- Every copy from the machine runs to its end.
  abbrev pub CanCopy : Guest → Type 0
  CanCopy vm = Copies vm.name (or_else vm.local_cfg.scp [])

  -- An action that only copies: it destroys nothing, and it returns where the files can be copied.
  abbrev Copied : Type 0 → Cleaning → Result (Unit {0}) × Cleaning → Type 0
  Copied can s (result, after) =
      (after.destroyed ≡ s.destroyed)
      × (can × (result ≡ ok tt) ⊎ ¬ can × ((e : Exception) × (result ≡ err e)))

  Copied-follow :
      (can can' : Type 0) (s : Cleaning) (result : Result (Unit {0})) (mid : Cleaning)
      (next : Exec Cleaning (Unit {0}))
      → Copied can s (result, mid)
      → Copied can' mid (next mid)
      → Copied (can × can') s (follow result (λ _. next) mid)
  Copied-follow can can' s (ok u) mid next (kept, inl (c, e)) (kept', inl (c', e')) =
      (kept' ∙ kept, inl ((c, c'), e'))
  Copied-follow can can' s (ok u) mid next (kept, inl (c, e)) (kept', inr (n, raised)) =
      (kept' ∙ kept, inr (λ (c, c'). n c', raised))
  Copied-follow can can' s (ok u) mid next (kept, inr (n, (x, e))) second = absurd cc
  Copied-follow can can' s (err y) mid next (kept, inl (c, e)) second = absurd cc
  Copied-follow can can' s (err y) mid next (kept, inr (n, raised)) second =
      (kept, inr (λ (c, c'). n c, (y, refl)))

  copy-Copied :
      (vm src dst : String) (s : Cleaning)
      → Copied (RunsToEnd vm (src, dst)) s (copy get_ssh execute destroy log_path vm (src, dst) s)
  unfolding copy scp_get
  copy-Copied vm src dst s = elim (Result-cases (get_ssh vm)) [
    | inr (x, e) ↦ rw e (refl, inr (λ (ssh, e', code, f). cc, (x, refl)))
    | inl (ssh, e) ↦ elim (Reading-cases (execute (scp_line ssh src (path_join log_path dst)))) [
      | inl (code, e') ↦ rw e (rw e' (refl, inl ((ssh, refl, code, e'), refl)))
      | inr e' ↦ rw e (
          rw e' (
            refl,
            inr (
              λ (ssh', f, code, f'). let same : ssh ≡ ssh' = ok-injective f in cc,
              (cancelled_error, refl),
            ),
          ))
    ]
  ]

  copy_files-Copied :
      (vm : String) (files : List (String × String)) (s : Cleaning)
      → Copied (Copies vm files) s (copy_files get_ssh execute destroy log_path vm files s)
  unfolding copy_files
  copy_files-Copied vm [] s = (refl, inl (tt, refl))
  copy_files-Copied vm ((src, dst) ∷ files) s =
      Copied-follow _ _ s _ _ (copy_files get_ssh execute destroy log_path vm files)
        (copy-Copied vm src dst s)
        (copy_files-Copied vm files (copy get_ssh execute destroy log_path vm (src, dst) s).1)

  copy_all-Copied :
      (vms : List Guest) (s : Cleaning)
      → Copied (All CanCopy vms) s (copy_all get_ssh execute destroy log_path vms s)
  unfolding copy_all
  copy_all-Copied [] s = (refl, inl (tt, refl))
  copy_all-Copied (vm ∷ vms) s =
      let first =
        copy_files get_ssh execute destroy log_path vm.name (or_else vm.local_cfg.scp []) s in
      Copied-follow _ _ s first.0 first.1 (copy_all get_ssh execute destroy log_path vms)
        (copy_files-Copied vm.name (or_else vm.local_cfg.scp []) s) (copy_all-Copied vms first.1)

  destroy_all_lem :
      (vms : List Guest) (s : Cleaning)
      → ((vm : Guest) → destroy vm.name ≡ ok tt)
      → ((destroy_all get_ssh execute destroy log_path vms s).0 ≡ ok tt)
        × ((destroy_all get_ssh execute destroy log_path vms s).1.destroyed
            ≡ s.destroyed ++ map (λ vm. vm.name) vms)
  unfolding destroy_all
  destroy_all_lem [] s works = (refl, simp append-nil)
  destroy_all_lem (vm ∷ vms) s works =
      let next = record s { destroyed = s.destroyed ++ vm.name ∷ [] } in
      let (e, all) = destroy_all_lem vms next works in rw (works vm) (e, rw all (simp append_assoc))

  -- Where machines can be destroyed, the cleanup of a job destroys all of them, in order, if the address of
  -- every machine with files to copy is found and no copy is cancelled, whatever exit codes the copies
  -- have; if some address is not found or some copy is cancelled, then it raises, and destroys none.
  pub cleanup-destroyed :
      (vms : List Guest) (s : Cleaning)
      → ((vm : Guest) → destroy vm.name ≡ ok tt)
      → let after = cleanup get_ssh execute destroy log_path vms s in
        (All CanCopy vms
          → (after.0 ≡ ok tt) × (after.1.destroyed ≡ s.destroyed ++ map (λ vm. vm.name) vms))
        × (¬ All CanCopy vms
            → ((e : Exception) × (after.0 ≡ err e)) × (after.1.destroyed ≡ s.destroyed))
  unfolding cleanup
  cleanup-destroyed vms s works =
      let closed = record s { closed = true } in
      let (kept, copied) = copy_all-Copied vms closed in
      let mid = (copy_all get_ssh execute destroy log_path vms closed).1 in
      let (e', all) = destroy_all_lem vms mid works in
      elim copied [
        | inl (can, e) ↦
            (λ _. rw e (e', all ∙ ap (λ d. d ++ map (λ vm. vm.name) vms) kept), λ n. absurd (n can))
        | inr (n, (x, e)) ↦ (λ can. absurd (n can), λ _. rw e ((x, refl), kept))
      ]
