-- ===== src/Task/Publish/Vote.antt =====
-- The vote of a task.
use rally_ci.Prelude.{
  String, ◌≡◌, ◌↔◌, refl, ap, sym, ◌∙◌, Bool, true, false, Option, none, some, List, [], ◌∷◌, ◌++◌,
  All, arith, if◌then◌else◌, Bool-cases, inl, inr,
}
use rally_ci.Python.{Result, ok, >>=-eq-ok, ok-injective}
use rally_ci.Python.Value.{index}
use rally_ci.Config.Data.{StreamConfig}
use rally_ci.Job.{Job, failed, or_key_error}
use rally_ci.Task.Create.{Task}
use rally_ci.Task.Publish.{
  is_failure, header_of, as_text, job_texts, vote_words, review, review_with, publish_results,
}

-- A job that votes has no error.
abbrev pub Passed : Job → Type 0
Passed j = j.voting ≡ true → failed j.error ≡ false

is_failure-Passed : (jobs : List Job) → (is_failure jobs ≡ false) ↔ All Passed jobs
unfolding is_failure
is_failure-Passed [] = (λ _. tt, λ _. refl)
is_failure-Passed (j ∷ jobs) =
    let (to, from) = is_failure-Passed jobs in
    (
      λ h. (λ voting. ground (arith, h, voting), to (ground (arith, h))),
      λ (passed, rest). elim (Bool-cases j.voting) [
        | inl voting ↦ ground (arith, voting, passed voting, from rest)
        | inr other ↦ ground (arith, other, from rest)
      ],
    )

-- The word after "gerrit review".
abbrev pub first_word : List String → Option String
first_word (_ ∷ _ ∷ word ∷ _) = some word
first_word _ = none

module _ (format : String → List (String × String) → Result String) where
  first_word-vote :
      (vote fail : Bool) (rest : List String)
      → vote ≡ true
      → first_word ("gerrit" ∷ "review" ∷ (vote_words format vote fail ++ rest))
        ≡ some (if fail then "--verified=-1" else "--verified=+1")
  unfolding vote_words
  first_word-vote true fail rest e = refl
  first_word-vote false fail rest e = cc

  review-vote :
      (cfg : StreamConfig) (header : String) (task : Task) (words : List String)
      → cfg.vote ≡ true
      → review format cfg header task ≡ ok words
      → first_word words
        ≡ some (if is_failure task.jobs_list then "--verified=-1" else "--verified=+1")
  unfolding review
  review-vote cfg header task words vote e =
      let fields =
        ("succeeded", if is_failure task.jobs_list then "failed" else "succeeded") ∷ [] in
      let (summary, _, e₁) = >>=-eq-ok (format header fields) _ e in
      let (tpl, _, e₂) = >>=-eq-ok (or_key_error cfg.comment_job_template) _ e₁ in
      let (jobs, _, e₃) = >>=-eq-ok (job_texts format tpl task.jobs_list) _ e₂ in
      let (patch_set, _, e₄) = >>=-eq-ok (index task.event "patchSet") _ e₃ in
      let (raw_revision, _, e₅) = >>=-eq-ok (index patch_set "revision") _ e₄ in
      let (revision, _, e₆) = >>=-eq-ok (as_text raw_revision) _ e₅ in
      sym (ap first_word (ok-injective e₆)) ∙ first_word-vote cfg.vote _ _ vote

  review_with-vote :
      (cfg : StreamConfig) (task : Task) (header : Option String) (words : List String)
      → cfg.vote ≡ true
      → review_with format cfg task header ≡ ok (some words)
      → first_word words
        ≡ some (if is_failure task.jobs_list then "--verified=-1" else "--verified=+1")
  review_with-vote cfg task none words vote e = cc
  review_with-vote cfg task (some header) words vote e =
      let (made, e₁, e₂) = >>=-eq-ok (review format cfg header task) _ e in
      let same : made ≡ words = cc in rw (← same) (review-vote cfg header task made vote e₁)

  -- When the results of a task are published on a stream that votes, the vote is +1 if every voting job
  -- has no error, whatever the other jobs have, and -1 if some voting job has one.
  pub publish_results-vote :
      (cfg : StreamConfig) (task : Task) (words : List String)
      → cfg.vote ≡ true
      → publish_results format cfg task ≡ ok (some words)
      → (All Passed task.jobs_list → first_word words ≡ some "--verified=+1")
        × (¬ All Passed task.jobs_list → first_word words ≡ some "--verified=-1")
  unfolding publish_results
  publish_results-vote cfg task words vote e =
      let voted = review_with-vote cfg task (header_of cfg.comment_header) words vote e in
      let (to, from) = is_failure-Passed task.jobs_list in
      (
        λ all. rw voted (rw (from all) refl),
        λ some_fail. elim (Bool-cases (is_failure task.jobs_list)) [
          | inl fail ↦ rw voted (rw fail refl)
          | inr pass ↦ absurd (some_fail (to pass))
        ],
      )
