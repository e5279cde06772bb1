-- ===== src/Node/Start.antt =====
-- LP_INIT of ProcessEvent of RBlockSim/src/RBlockSim.c: the state that a node starts with.
pub mod Ledger
use rblock_sim_reproducibili.Base.{ℕ, ◌+◌, Bool, true, false, some}
use rblock_sim_reproducibili.Run.{Run, ok, ◌>>=◌}
use rblock_sim_reproducibili.Platform.{Double, Rng, Platform}
use rblock_sim_reproducibili.Config.{
  Constants, Globals, StatsType, stats_none, stats_detailed, stats_fifty_one, stats_selfish,
  is_attacker,
}
use rblock_sim_reproducibili.Transaction.{init_transaction_state}
use rblock_sim_reproducibili.Statistics.{
  StatsState, init_detailed_statistics_state, init_fifty_one_statistics_state,
  init_selfish_statistics_state,
}
use rblock_sim_reproducibili.Chain.Growth.{BlockchainState}
use rblock_sim_reproducibili.Mining.{init_blockchain_state, attacker_init_blockchain_state}
use rblock_sim_reproducibili.Network.{Event, init_message}
use rblock_sim_reproducibili.Node.{AttackerState, NodeState}

abbrev pub new_attacker : AttackerState
new_attacker = record {
  last_propagated_height = 0;
  failed_attacks = 0;
  successful_conceals = 0;
  is_selfish_mining = false;
  finished_selfish_mining = false;
}

-- The statistics over whatever the memory of the node held before.
unfoldable pub init_statistics : Globals → StatsType → StatsState → StatsState
init_statistics g stats_none junk = junk
init_statistics g stats_detailed junk = (init_detailed_statistics_state g junk).1
init_statistics g stats_fifty_one junk = (init_fifty_one_statistics_state g junk).1
init_statistics g stats_selfish junk = (init_selfish_statistics_state g junk).1

module _ (p : Platform) (c : Constants) (g : Globals) where
  -- The chain of an attacker or of any other node, with the total hash power that it leaves.
  unfoldable pub init_chain : Bool → StatsState → Rng → Run (BlockchainState × Rng × ℕ)
  init_chain true stats rng =
      attacker_init_blockchain_state p c (some (init_transaction_state p c)) stats >>= λ b.
      ok (b, rng, g.total_hash_power)
  init_chain false stats rng =
      init_blockchain_state p c g (some (init_transaction_state p c)) stats rng

  -- The state, the event that it schedules for itself, and the total hash power.
  unfoldable pub init_node : ℕ → Double → StatsState → Run (NodeState × Event × ℕ)
  unfolding init_chain init_statistics
  init_node me now junk =
      init_chain (is_attacker p g me) (init_statistics g g.stats_type junk)
        (p.initialize_stream (c.rng_seed + me))
      >>= λ (b, rng, power). ok (
        record { rng = rng; blockchain_state = b; attacker = new_attacker },
        record { receiver = me; time = now; message = init_message },
        power,
      )
