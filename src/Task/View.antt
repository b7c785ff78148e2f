-- ===== src/Task/View.antt =====
-- `Task.to_dict`: what the status service shows of a task. `cgi.escape` replaces "&", "<" and ">" one
-- after the other; no replacement makes a character that a later one replaces, so it is written as one
-- pass over the text.
pub mod Escape
use Prim.Native.Char.{Char, code}
use rally_ci.Prelude.{
  ℕ, zero, suc, String, ◌<>◌, ◌==◌, Bool, true, false, Option, none, some, List, [], ◌∷◌, eqb,
  if◌then◌else◌,
}
use rally_ci.Python.{attribute_error, type_error, Result, ok, err, ◌>>=◌}
use rally_ci.Python.Value.{
  Value, Items, null, bool, num, str, arr, obj, nil, cons, field, end, find_field, get, index,
}
use rally_ci.Job.{Job}
use rally_ci.Job.View
use rally_ci.Task.Create.{Task}

abbrev pub escape_char : ℕ → String → String
escape_char c s =
    if eqb c b'&' then "&amp;" else if eqb c b'<' then "&lt;" else if eqb c b'>' then "&gt;" else s

unfoldable pub escape : String → String
escape String.[] = ""
escape (String.◌∷◌ c s) = escape_char (code c) (String.◌∷◌ c String.[]) <> escape s

-- `cgi.escape(v)`: only a text has `replace`.
abbrev pub escaped : Value → Result Value
escaped (str s) = ok (str (escape s))
escaped _ = err attribute_error

unfoldable pub job_dicts : ℕ → List Job → Items
unfolding View.to_dict
job_dicts now [] = nil
job_dicts now (j ∷ jobs) = cons (View.to_dict now j) (job_dicts now jobs)

abbrev after_slash : Option String → String → String
after_slash none s = s
after_slash (some rest) s = rest

-- The text after the first "/"
unfoldable pub cut : String → Option String
cut String.[] = none
cut (String.◌∷◌ c s) = let rest = cut s in if eqb (code c) b'/' then some s else rest

-- `s.split("/", n)[-1]`
unfoldable pub last_part : ℕ → String → String
unfolding cut
last_part zero s = s
last_part (suc n) s = elim (cut s) [ some rest ↦ last_part n rest | none ↦ s ]

abbrev text_of : Value → Result String
text_of (str s) = ok s
text_of _ = err attribute_error

-- "%s" of a value that is a text; the code puts no other value there.
abbrev shown : Value → Result String
shown (str s) = ok s
shown _ = err type_error

abbrev patch_url : Value → Result Value
patch_url patch_set = do
  raw_ref ← index patch_set "ref"
  ref ← text_of raw_ref
  ok (str ("https://review.openstack.org/#/c/" <> last_part 3 ref))

abbrev commit_url : String → Value → Result Value
commit_url project event = do
  update ← index event "refUpdate"
  raw_rev ← index update "newRev"
  rev ← shown raw_rev
  ok (str ("https://github.com/" <> (project <> ("/commit/" <> rev))))

abbrev url_for : String → Value → Option Value → Result Value
url_for project event (some patch_set) = patch_url patch_set
url_for project event none = commit_url project event

-- `"patchSet" in self.event`
abbrev patch_set_of : Value → Option Value
patch_set_of (obj fs) = find_field "patchSet" fs
patch_set_of _ = none

unfoldable pub to_dict : ℕ → Task → Result Value
unfolding escape job_dicts last_part
to_dict now t = do
  change ← get t.event "change" (obj end)
  raw_subject ← get change "subject" (str "[view on github]")
  subject ← escaped raw_subject
  url ← url_for t.project t.event (patch_set_of t.event)
  ok (
      obj (
        field "id" (str t.id) (
          field "jobs" (arr (job_dicts now t.jobs_list)) (
            field "finished_at" (num t.finished_at) (
              field "subject" subject
                (field "project" (str (escape t.project)) (field "url" url end)))))))
