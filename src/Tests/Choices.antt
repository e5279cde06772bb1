-- ===== src/Tests/Choices.antt =====
-- Chain.ForkChoice on small inputs.
use rblock_sim_reproducibili.Base.{ℕ, ◌≡◌, refl, true, false, arith}
use rblock_sim_reproducibili.Run.{ok}
use rblock_sim_reproducibili.Chain.{ChainNode}
use rblock_sim_reproducibili.Chain.ForkChoice.{max_honest, max_attacker, catchup_tolerance}
use rblock_sim_reproducibili.Chain.ForkChoice.Order.{
  SameRank, honest_antisym, attacker_stays, attacker_leaves, attacker_cycle,
}
use rblock_sim_reproducibili.Tests.Switching.{globals, node, one}

-- The fork choice of the attacker, whose tolerance is 2.
abbrev chain_of : ℕ → ℕ → ℕ → ChainNode
chain_of score ancestors timestamp = record (node 5 0 1 ancestors (one 0)) {
  score = score;
  timestamp = timestamp;
}

tolerance : catchup_tolerance globals.attack_config ≡ ok 2
unfolding catchup_tolerance
tolerance = refl

attacker_stays_example :
    (max_attacker globals.attack_config (chain_of 4 3 50) (chain_of 5 1 40) ≡ ok true)
    × (max_attacker globals.attack_config (chain_of 5 1 40) (chain_of 4 3 50) ≡ ok false)
attacker_stays_example =
    attacker_stays globals.attack_config 2 tolerance (chain_of 4 3 50) (chain_of 5 1 40)
      (omega arith) (omega arith)

attacker_leaves_example :
    (max_attacker globals.attack_config (chain_of 4 3 50) (chain_of 7 1 40) ≡ ok false)
    × (max_attacker globals.attack_config (chain_of 7 1 40) (chain_of 4 3 50) ≡ ok true)
attacker_leaves_example =
    attacker_leaves globals.attack_config 2 tolerance (chain_of 4 3 50) (chain_of 7 1 40)
      (omega arith) (omega arith)

attacker_cycle_example :
    (max_attacker globals.attack_config (chain_of 4 3 40) (chain_of 6 2 50) ≡ ok true)
    × (max_attacker globals.attack_config (chain_of 6 2 50) (chain_of 8 1 60) ≡ ok true)
    × (max_attacker globals.attack_config (chain_of 8 1 60) (chain_of 4 3 40) ≡ ok true)
attacker_cycle_example =
    attacker_cycle globals.attack_config 2 tolerance (chain_of 4 3 40) (chain_of 6 2 50)
      (chain_of 8 1 60) (omega arith) (omega arith) (omega arith) refl refl (omega arith)
      (omega arith)

honest_antisym_example :
    SameRank (chain_of 6 2 50) (record (chain_of 6 2 50) { height = 7 })
    × (max_honest (chain_of 6 2 50) (record (chain_of 6 2 50) { height = 7 }) ≡ true)
unfolding max_honest
honest_antisym_example =
    honest_antisym (chain_of 6 2 50) (record (chain_of 6 2 50) { height = 7 }) refl
