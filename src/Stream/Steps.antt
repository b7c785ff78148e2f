-- ===== src/Stream/Steps.antt =====
-- The life of a stream: lines come in, and tasks that run are done and are cleaned up.
pub mod Exclusive
pub mod Leak
use rally_ci.Prelude.{ℕ, zero, suc, String, Bool, Option, none, some, List, [], ◌∷◌}
use rally_ci.Python.{Result}
use rally_ci.Python.Value.{Value}
use rally_ci.Config.Data.{Data, StreamConfig}
use rally_ci.Task.Create.{Task}
use rally_ci.Stream.{Stream, Line, handle_line, cleanup}

pub data Step : Type 0 where
  receives : Line → Step
  finishes : ℕ → Step

-- The task at a place of the list, and the others.
abbrev pub pick : ℕ → List Task → Option (Task × List Task)
pick n [] = none
pick zero (t ∷ ts) = some (t, ts)
pick (suc n) (t ∷ ts) = elim (pick n ts) [ none ↦ none | some (u, us) ↦ some (u, t ∷ us) ]

module _ (config : Data) (cfg : StreamConfig) (search : String → String → Bool)
    (loads : String → Result Value) (start_handlers : Task → Result (Unit {0})) where
  abbrev finish : Option (Task × List Task) → Stream → Stream
  finish none s = s
  finish (some (t, others)) s = (cleanup cfg t (record s { running = others })).1

  unfoldable pub step : Stream → Step → Stream
  step s (receives line) = (handle_line config cfg search loads start_handlers line s).1
  step s (finishes n) = finish (pick n s.running) s

  unfoldable pub run : Stream → List Step → Stream
  run s [] = s
  run s (e ∷ es) = run (step s e) es
