-- ===== src/Virsh/Provider.antt =====
-- `Provider.get_vms` up to the choice of a host, and `Host.update_stats`.
-- The choice runs under `get_vms_lock`. `load_in` and `free_in` are what `RE_LA` and `RE_MEM` find in
-- the output of "uptime && free -m": the load in hundredths, and the free and the cached memory.
pub mod Choice
pub mod Vms
use rally_ci.Prelude.{
  ℕ, zero, suc, ◌+◌, ◌-◌, String, Bool, true, false, ◌&&◌, Option, none, some, List, [], ◌∷◌, ltb,
  leb, if◌then◌else◌,
}
use rally_ci.Prelude.Dict.{Dict, lookup}
use rally_ci.Python.{attribute_error, Result, ok, err, ◌>>=◌}
use rally_ci.Config.Data.{VmLocal}
use rally_ci.Job.{or_else, or_key_error}
use rally_ci.Virsh.Config.{VmConfig, ProviderConfig}
use rally_ci.Virsh.Remote.{Reply, Host, judge, output_of, run_command}

-- A host with its identity, what answers its commands, and the load and the memory that were last
-- measured.
pub record Node : Type 0 where
  pub number : ℕ
  pub answer : List String → String → Reply
  pub host : Host
  pub la : ℕ
  pub free : ℕ

-- `hosts`, `last`, and the clock.
pub record Provider : Type 0 where
  pub nodes : List Node
  pub last : ℕ
  pub clock : ℕ

-- `m.group(1)` of no match raises AttributeError.
abbrev pub matched {ℓ} : {A : Type ℓ} → Option A → Result A
matched none = err attribute_error
matched (some a) = ok a

-- `memory_required`
unfoldable pub memory_of : Dict VmConfig → List VmLocal → Result ℕ
memory_of vms [] = ok 0
memory_of vms (cfg ∷ cfgs) = do
  conf ← or_key_error (lookup cfg.name vms)
  memory ← or_key_error conf.memory
  rest ← memory_of vms cfgs
  ok (memory + rest)

unfoldable pub memory_required : ProviderConfig → List VmLocal → Result ℕ
unfolding memory_of
memory_required config cfgs = do
  memory ← memory_of config.vms cfgs
  ok (or_else config.freemb 1024 + memory)

module _ (load_in : String → Option ℕ) (free_in : String → Option (ℕ × ℕ)) where
  abbrev stats : Result Reply → Node → Result (Unit {0}) × Node
  stats (err e) n = (err e, n)
  stats (ok reply) n = elim (do output ← output_of reply; matched (load_in output)) [
    | err e ↦ (err e, n)
    | ok la ↦ elim (do output ← output_of reply; matched (free_in output)) [
      | err e ↦ (err e, record n { la = la })
      | ok (free, cached) ↦ (ok tt, record n { la = la; free = free + cached })
    ]
  ]

  unfoldable pub update_stats : Node → Result (Unit {0}) × Node
  unfolding run_command
  update_stats n =
      let (reply, host) = run_command n.answer true "uptime && free -m" n.host in
      stats reply (record n { host = host })

  module _ (config : ProviderConfig) (required : ℕ) where
    -- `host.free >= memory_required and host.la < maxla`
    abbrev pub fits : Node → Bool
    fits n = leb required n.free && ltb n.la (or_else config.maxla 400)

    abbrev pub choose :
        Result (Unit {0})
        → Node
        → List Node
        → Result (Option Node) × List Node
        → Result (Option Node) × List Node
    choose (err e) n ns rest = (err e, n ∷ ns)
    choose (ok tt) n ns (result, ns') = if fits n then (ok (some n), n ∷ ns) else (result, n ∷ ns')

    -- The loop over the hosts: the chosen one, and the hosts afterwards.
    unfoldable pub try_nodes : List Node → Result (Option Node) × List Node
    unfolding update_stats
    try_nodes [] = (ok none, [])
    try_nodes (n ∷ ns) =
        let (result, measured) = update_stats n in choose result measured ns (try_nodes ns)

    -- `shuffle k` is what the k-th call of `random.shuffle` does, and `took` how long a round takes.
    module _ (shuffle : ℕ → List Node → List Node) (took : ℕ → ℕ) where
      abbrev pub after_round :
          Result (Option Node)
          → Provider
          → Option (Result Node × Provider)
          → Option (Result Node × Provider)
      after_round (err e) p rest = some (err e, p)
      after_round (ok (some n)) p rest = some (ok n, record p { last = p.clock })
      after_round (ok none) p rest = rest

      -- The endless loop, from its k-th round on.
      unfoldable pub rounds : ℕ → ℕ → Provider → Option (Result Node × Provider)
      unfolding try_nodes
      rounds zero k p = none
      rounds (suc fuel) k p =
          let (result, nodes) = try_nodes (shuffle k p.nodes) in
          let tried = record p { nodes = nodes; clock = p.clock + took k } in
          after_round result tried (rounds fuel (suc k) (record tried { clock = tried.clock + 30 }))

      -- `sleep = self.last + 5 - time.time()`, and a sleep if it is above 1.
      abbrev pub spaced : Provider → Provider
      spaced p = if ltb (p.clock + 1) (p.last + 5) then record p { clock = p.last + 5 } else p

      unfoldable pub get_host : ℕ → Provider → Option (Result Node × Provider)
      unfolding rounds
      get_host fuel p = rounds fuel 0 (spaced p)
