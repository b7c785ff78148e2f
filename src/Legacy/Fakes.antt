-- ===== src/Legacy/Fakes.antt =====
-- rallyci/runners/fake.py and rallyci/streams/fake.py: a runner that only sleeps, and a stream that reads
-- the lines of a file as texts. `randint k a b` is what the k-th `random.randint(a, b)` draws.
use rally_ci.Prelude.{
  ℕ, String, ◌≡◌, refl, Bool, Option, none, some, List, [], ◌∷◌, ◌++◌, length, ltb, if◌then◌else◌,
}
use rally_ci.Python.{value_error, Result, ok, err}
use rally_ci.Python.Exec.{Exec, pure, modify, ◌>>◌}
use rally_ci.Python.Value.{Value}
use rally_ci.Config.Data.{Data, StreamConfig}
use rally_ci.Task.Create.{Task}
use rally_ci.Job.{or_else}
use rally_ci.Stream.{Stream, text, handle_line}

-- The config of the runner: ranges of seconds
pub record FakeConfig : Type 0 where
  pub sleep_build : Option (ℕ × ℕ)
  pub sleep_run : Option (ℕ × ℕ)
  pub sleep_cleanup : Option (ℕ × ℕ)

-- `slept` are the sleeps, in order, and `started_at` is the job's.
pub record Fake : Type 0 where
  pub slept : List ℕ
  pub started_at : Option ℕ

module _ (randint : ℕ → ℕ → ℕ → ℕ) (cfg : FakeConfig) where
  -- `random.randint` of an empty range raises ValueError.
  unfoldable pub sleep : ℕ × ℕ → Exec Fake (Unit {0})
  sleep (least, most) f =
      if ltb most least
      then (err value_error, f)
      else (ok tt, record f { slept = f.slept ++ randint (length f.slept) least most ∷ [] })

  unfoldable pub boot : Exec Fake (Unit {0})
  unfolding sleep
  boot = sleep (or_else cfg.sleep_build (1, 2))

  unfoldable pub build : Exec Fake (Unit {0})
  unfolding sleep
  build = sleep (or_else cfg.sleep_build (1, 2))

  -- It returns nothing, so that its job counts as a success.
  unfoldable pub run : ℕ → Exec Fake (Option ℕ)
  unfolding sleep
  run now = do
    modify (λ f. record f { started_at = some now })
    sleep (or_else cfg.sleep_run (1, 2))
    pure none

  unfoldable pub run_script : Exec Fake (Unit {0})
  unfolding sleep
  run_script = sleep (or_else cfg.sleep_run (1, 2))

  unfoldable pub cleanup : Exec Fake (Unit {0})
  unfolding sleep
  cleanup = sleep (or_else cfg.sleep_cleanup (2, 4))

module _ (config : Data) (cfg : StreamConfig) (search : String → String → Bool)
    (loads : String → Result Value) (start_handlers : Task → Result (Unit {0})) where
  -- One round of the stream's endless loop, without the sleeps
  unfoldable pub read_lines : List String → Exec Stream (Unit {0})
  unfolding handle_line
  read_lines [] = pure tt
  read_lines (line ∷ lines) = do
    handle_line config cfg search loads start_handlers (text line)
    read_lines lines

  -- A line that is a text is ignored, so that a round changes nothing.
  read_lines_lem : (lines : List String) (s : Stream) → read_lines lines s ≡ (ok tt, s)
  unfolding read_lines
  read_lines_lem [] s = refl
  read_lines_lem (line ∷ lines) s = read_lines_lem lines s
