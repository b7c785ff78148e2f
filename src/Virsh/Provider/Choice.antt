-- ===== src/Virsh/Provider/Choice.antt =====
-- The host that is chosen.
use rally_ci.Prelude.{
  ℕ, zero, suc, ◌+◌, ◌≤◌, ◌<◌, String, ◌≡◌, false, Option, none, some, List, All,
}
use rally_ci.Python.{Result, ok, err}
use rally_ci.Job.{or_else}
use rally_ci.Virsh.Config.{ProviderConfig}
use rally_ci.Virsh.Provider.{Node, Provider, update_stats, fits, try_nodes}

module _ (load_in : String → Option ℕ) (free_in : String → Option (ℕ × ℕ)) (config : ProviderConfig)
    (required : ℕ) where
  -- The host can be measured, and then has no room for the machines.
  abbrev pub IsFull : Node → Type 0
  IsFull n =
      let (result, measured) = update_stats load_in free_in n in
      (result ≡ ok tt) × (fits load_in free_in config required measured ≡ false)

  abbrev pub HasRoom : Node → Type 0
  HasRoom n = (required ≤ n.free) × (n.la < or_else config.maxla 400)

  abbrev Right : List Node → Result (Option Node) → Type 0
  Right ns (err e) = Unit
  Right ns (ok (some n)) = HasRoom n
  Right ns (ok none) = All IsFull ns

  module _ (shuffle : ℕ → List Node → List Node) (took : ℕ → ℕ) where
    -- The provider after the k-th round, before its pause.
    abbrev pub tried : ℕ → Provider → Provider
    tried k p = record p {
      nodes = (try_nodes load_in free_in config required (shuffle k p.nodes)).1;
      clock = p.clock + took k;
    }

    -- In each of the next rounds every host is full.
    pub Overloaded : ℕ → ℕ → Provider → Type 0
    Overloaded zero k p = Unit
    Overloaded (suc fuel) k p =
        All IsFull (shuffle k p.nodes)
        × Overloaded fuel (suc k) (record (tried k p) { clock = (tried k p).clock + 30 })

    -- The choice of a host from the time `now` on.
    abbrev pub Chosen : ℕ → ℕ → ℕ → Provider → Option (Result Node × Provider) → Type 0
    Chosen now fuel k p none = Overloaded fuel k p
    Chosen now fuel k p (some (err e, after)) = after.last ≡ p.last
    Chosen now fuel k p (some (ok n, after)) =
        HasRoom n × (after.last ≡ after.clock) × (now ≤ after.last)
