-- ===== src/Task/View/Escape.antt =====
-- What `to_dict` shows of a task is safe to put into a page.
use Prim.Native.Char.{Char, code}
use text.Mathlib.TextLemmas.{nil-append, cons-append}
use rally_ci.Prelude.{sym, ap, ◌∙◌, Bool-cases, inl, inr, ℕ, String, ◌<>◌, ◌≡◌, eqb, arith}
use rally_ci.Python.{ok, >>=-eq-ok, ok-injective}
use rally_ci.Python.Value.{Value, null, bool, num, str, arr, obj, end, get, index}
use rally_ci.Task.Create.{Task}
use rally_ci.Task.View.{escape_char, escape, escaped, to_dict, url_for, patch_set_of}

-- Every character has the property.
unfoldable pub AllChars : (ℕ → Type 0) → String → Type 0
AllChars P String.[] = Unit
AllChars P (String.◌∷◌ c s) = P (code c) × AllChars P s

-- No character opens or closes a tag.
abbrev pub IsPlain : String → Type 0
IsPlain s = AllChars (λ c. (c ≡ b'<' → ⊥) × (c ≡ b'>' → ⊥)) s

AllChars-append :
    (P : ℕ → Type 0) (s t : String) → AllChars P s → AllChars P t → AllChars P (s <> t)
unfolding AllChars
AllChars-append P String.[] t hs ht = rw (nil-append t) ht
AllChars-append P (String.◌∷◌ c s) t (h, hs) ht =
    rw (cons-append c s t) (h, AllChars-append P s t hs ht)

escape_char-IsPlain : (c : Char) → IsPlain (escape_char (code c) (String.◌∷◌ c String.[]))
unfolding AllChars
escape_char-IsPlain c = elim (Bool-cases (eqb (code c) b'&')) [
  | inl amp ↦ rw amp (ground arith)
  | inr no_amp ↦ elim (Bool-cases (eqb (code c) b'<')) [
    | inl opens ↦ rw (no_amp, opens) (ground arith)
    | inr no_open ↦ elim (Bool-cases (eqb (code c) b'>')) [
      | inl closes ↦ rw (no_amp, no_open, closes) (ground arith)
      | inr no_close ↦ rw (no_amp, no_open, no_close) (ground arith)
    ]
  ]
]

escape-IsPlain : (s : String) → IsPlain (escape s)
unfolding escape AllChars
escape-IsPlain String.[] = tt
escape-IsPlain (String.◌∷◌ c s) =
    AllChars-append (λ d. (d ≡ b'<' → ⊥) × (d ≡ b'>' → ⊥))
      (escape_char (code c) (String.◌∷◌ c String.[])) (escape s) (escape_char-IsPlain c)
      (escape-IsPlain s)

-- The value is an object whose field `k` is a text that opens and closes no tag.
abbrev pub HasPlain : String → Value → Type 0
HasPlain k d = (s : String) × (index d k ≡ ok (str s)) × IsPlain s

escaped-text : (v w : Value) → escaped v ≡ ok w → (s : String) × (w ≡ str (escape s))
escaped-text (str s) w h = (s, sym (ok-injective h))
escaped-text null w h = cc
escaped-text (bool b) w h = cc
escaped-text (num n) w h = cc
escaped-text (arr xs) w h = cc
escaped-text (obj fs) w h = cc

-- If a task has a dict for the status page, then its subject and its project are there texts without
-- "<" and ">", whatever the event and the name of the project hold.
pub to_dict-HasPlain :
    (now : ℕ) (t : Task) (d : Value)
    → to_dict now t ≡ ok d
    → HasPlain "subject" d × HasPlain "project" d
unfolding to_dict
to_dict-HasPlain now t d h =
    let (change, _, h1) = >>=-eq-ok (get t.event "change" (obj end)) _ h in
    let (raw, _, h2) = >>=-eq-ok (get change "subject" (str "[view on github]")) _ h1 in
    let (subject, e, h3) = >>=-eq-ok (escaped raw) _ h2 in
    let (url, _, h4) = >>=-eq-ok (url_for t.project t.event (patch_set_of t.event)) _ h3 in
    let (s, is_text) = escaped-text raw subject e in
    let dict = sym (ok-injective h4) in
    (
      (escape s, ap (λ v. index v "subject") dict ∙ ap ok is_text, escape-IsPlain s),
      (escape t.project, ap (λ v. index v "project") dict, escape-IsPlain t.project),
    )
