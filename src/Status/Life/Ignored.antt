-- ===== src/Status/Life/Ignored.antt =====
-- What one service does to the lists of the root is the same whether or not another is in them.
use rally_ci.Prelude.{
  ℕ, ◌≡◌, ◌≢◌, refl, ap, sym, ◌∙◌, true, false, List, [], ◌∷◌, ◌++◌, arith, Bool-cases, inl, inr,
}
use rally_ci.Python.{Result, ok, err}
use rally_ci.Python.Exec.{Exec, follow, ◌>>◌}
use rally_ci.Root.{has}
use rally_ci.Status.{remove}
use rally_ci.Status.Life.{Handlers, register, remove_start, remove_end, remove_update, unregister}

-- The first list is the second with `a` in one more place.
pub record Joined (a : ℕ) (with_a without_a : List ℕ) : Type 0 where
  pub present : has a with_a ≡ true
  pub rest : remove a with_a ≡ without_a

remove-append :
    (a b : ℕ) (l : List ℕ) → has a l ≡ true → remove a (l ++ b ∷ []) ≡ remove a l ++ b ∷ []
unfolding remove has
remove-append a b [] h = cc
remove-append a b (c ∷ l) h = ground (arith, h, remove-append a b l)

pub remove-append_new : (a : ℕ) (l : List ℕ) → has a l ≡ false → remove a (l ++ a ∷ []) ≡ l
unfolding remove has
remove-append_new a [] h = ground arith
remove-append_new a (c ∷ l) h = ground (arith, h, remove-append_new a l)

has-append_one : (a b : ℕ) (l : List ℕ) → has a l ≡ true → has a (l ++ b ∷ []) ≡ true
unfolding has
has-append_one a b [] h = cc
has-append_one a b (c ∷ l) h = ground (arith, h, has-append_one a b l)

pub has-append_self : (a : ℕ) (l : List ℕ) → has a (l ++ a ∷ []) ≡ true
unfolding has
has-append_self a [] = ground arith
has-append_self a (c ∷ l) = ground (arith, has-append_self a l)

has-remove : (a b : ℕ) (l : List ℕ) → a ≢ b → has a (remove b l) ≡ has a l
unfolding has remove
has-remove a b [] ne = refl
has-remove a b (c ∷ l) ne = ground (arith, has-remove a b l ne)

remove-remove : (a b : ℕ) (l : List ℕ) → a ≢ b → remove a (remove b l) ≡ remove b (remove a l)
unfolding remove
remove-remove a b [] ne = refl
remove-remove a b (c ∷ l) ne = ground (arith, remove-remove a b l ne)

module _ (a b : ℕ) (other : b ≢ a) (l' l : List ℕ) (j : Joined a l' l) where
  Joined-append : Joined a (l' ++ b ∷ []) (l ++ b ∷ [])
  Joined-append = record {
    present = has-append_one a b l' j.present;
    rest = remove-append a b l' j.present ∙ ap (λ m. m ++ b ∷ []) j.rest;
  }

  has-Joined : has b l' ≡ has b l
  has-Joined = sym (has-remove b a l' other) ∙ ap (has b) j.rest

  Joined-remove : Joined a (remove b l') (remove b l)
  Joined-remove = record {
    present = has-remove a b l' (λ e. other (sym e)) ∙ j.present;
    rest = remove-remove a b l' (λ e. other (sym e)) ∙ ap (remove b) j.rest;
  }

-- The first lists are the second with the service `a` in addition.
pub record IsWith (a : ℕ) (h' h : Handlers) : Type 0 where
  pub starts : Joined a h'.task_start_handlers h.task_start_handlers
  pub ends : Joined a h'.task_end_handlers h.task_end_handlers
  pub updates : Joined a h'.job_update_handlers h.job_update_handlers

-- An action that does the same with the service `a` and without it.
abbrev pub Ignores : ℕ → Exec Handlers (Unit {0}) → Type 0
Ignores a m = (h' h : Handlers) → IsWith a h' h → ((m h').0 ≡ (m h).0) × IsWith a (m h').1 (m h).1

Ignores-follow :
    (a : ℕ) (n : Exec Handlers (Unit {0})) (r' r : Result (Unit {0})) (h' h : Handlers)
    → Ignores a n
    → r' ≡ r
    → IsWith a h' h
    → ((follow r' (λ _. n) h').0 ≡ (follow r (λ _. n) h).0)
      × IsWith a (follow r' (λ _. n) h').1 (follow r (λ _. n) h).1
Ignores-follow a n r' (ok tt) h' h i same w = rw same (i h' h w)
Ignores-follow a n r' (err e) h' h i same w = rw same (refl, w)

Ignores-then :
    (a : ℕ) (m n : Exec Handlers (Unit {0})) → Ignores a m → Ignores a n → Ignores a (m >> n)
Ignores-then a m n im in_ h' h w =
    let (same, after) = im h' h w in
    Ignores-follow a n (m h').0 (m h).0 (m h').1 (m h).1 in_ same after

module _ (a b : ℕ) (other : b ≢ a) where
  Ignores-remove_start : Ignores a (remove_start b)
  unfolding remove_start
  Ignores-remove_start h' h w =
      let same = has-Joined a b other _ _ w.starts in
      elim (Bool-cases (has b h.task_start_handlers)) [
        | inl e ↦
            rw (same, e)
              (
                refl,
                record {
                  starts = Joined-remove a b other _ _ w.starts;
                  ends = w.ends;
                  updates = w.updates;
                },
              )
        | inr e ↦ rw (same, e) (refl, w)
      ]

  Ignores-remove_end : Ignores a (remove_end b)
  unfolding remove_end
  Ignores-remove_end h' h w =
      let same = has-Joined a b other _ _ w.ends in
      elim (Bool-cases (has b h.task_end_handlers)) [
        | inl e ↦
            rw (same, e)
              (
                refl,
                record {
                  starts = w.starts;
                  ends = Joined-remove a b other _ _ w.ends;
                  updates = w.updates;
                },
              )
        | inr e ↦ rw (same, e) (refl, w)
      ]

  Ignores-remove_update : Ignores a (remove_update b)
  unfolding remove_update
  Ignores-remove_update h' h w =
      let same = has-Joined a b other _ _ w.updates in
      elim (Bool-cases (has b h.job_update_handlers)) [
        | inl e ↦
            rw (same, e)
              (
                refl,
                record {
                  starts = w.starts;
                  ends = w.ends;
                  updates = Joined-remove a b other _ _ w.updates;
                },
              )
        | inr e ↦ rw (same, e) (refl, w)
      ]

  pub Ignores-unregister : Ignores a (unregister b)
  unfolding unregister
  Ignores-unregister =
      Ignores-then a (remove_start b) (remove_end b >> remove_update b) Ignores-remove_start
        (Ignores-then a (remove_end b) (remove_update b) Ignores-remove_end Ignores-remove_update)

  pub IsWith-register : (h' h : Handlers) → IsWith a h' h → IsWith a (register b h') (register b h)
  IsWith-register h' h w = record {
    starts = Joined-append a b other _ _ w.starts;
    ends = Joined-append a b other _ _ w.ends;
    updates = Joined-append a b other _ _ w.updates;
  }
