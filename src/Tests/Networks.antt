-- ===== src/Tests/Networks.antt =====
-- Attacks, Network and Statistics on small inputs.
use rblock_sim_reproducibili.Base.{
  ℕ, zero, suc, ◌<◌, ◌≡◌, refl, false, none, some, [], ◌∷◌, inl, inr, arith, ◌==◌,
}
use rblock_sim_reproducibili.Run.{ok, abort}
use rblock_sim_reproducibili.Config.{Globals, stats_detailed}
use rblock_sim_reproducibili.Statistics.{stats_receive_block_detailed}
use rblock_sim_reproducibili.Statistics.Counters.{receive_appends}
use rblock_sim_reproducibili.Attacks.{Attackers, generate_attackers, init_attackers}
use rblock_sim_reproducibili.Attacks.Sampling.{
  Sampled, generate_attackers-Sampled, init_attackers_single, init_attackers_refuses,
}
use rblock_sim_reproducibili.Chain.{Block}
use rblock_sim_reproducibili.Network.{Topology, init_network, get_region, gossip_block, latency}
use rblock_sim_reproducibili.Network.Regions.{Placed, total, init_network_places}
use rblock_sim_reproducibili.Network.Gossip.{Propagated, Connected, gossip_block_propagates}
use rblock_sim_reproducibili.Tests.Machine.{machine, machine-BitmapLaws, machine-IsFair}
use rblock_sim_reproducibili.Tests.Transactions.{small}
use rblock_sim_reproducibili.Tests.Switching.{globals, counted, one}

generate_attackers-Sampled_example :
    Sampled machine machine-BitmapLaws 0 4 2 []
      (0 ∷ [])
      (generate_attackers machine 4 0 2 (3 ∷ []) [] (0 ∷ []))
generate_attackers-Sampled_example =
    generate_attackers-Sampled machine machine-BitmapLaws 4 0 2 (3 ∷ []) [] (0 ∷ []) (omega arith)
      (omega arith)

-- The draws 3, 4, 5 and 6 select nodes 1 and 3.
generate_attackers_run :
    generate_attackers machine 4 0 2 (3 ∷ []) [] (0 ∷ []) ≡ (1 ∷ 3 ∷ [], 10 ∷ [], 7 ∷ [])
unfolding generate_attackers
generate_attackers_run = refl

abbrev no_attackers : Attackers
no_attackers = record { attacker_ids = none; num_attackers = 0; is_attacker_bitmap = [] }

init_attackers_single_example :
    (id : ℕ) × (id < 4)
    × (b : Attackers) × (init_attackers machine globals.attack_config 4 no_attackers 1
          (some (6 ∷ []))
        ≡ ok (b, some (7 ∷ [])))
    × (b.attacker_ids ≡ some (id ∷ []))
    × (b.num_attackers ≡ 1)
    × ((k : ℕ) → k < 4 → machine.bitmap_check b.is_attacker_bitmap k ≡ (id == k))
init_attackers_single_example =
    init_attackers_single machine machine-BitmapLaws globals.attack_config 4 no_attackers (6 ∷ [])
      refl refl (omega arith) (omega arith)

init_attackers_refuses_example :
    init_attackers machine globals.attack_config 4 no_attackers 4 (some (6 ∷ [])) ≡ abort
init_attackers_refuses_example =
    init_attackers_refuses machine machine-BitmapLaws globals.attack_config 4 no_attackers 4
      (6 ∷ []) refl (omega arith) (inr (inl (omega arith)))

-- Two regions, of 25% and 75% of the nodes; the peers of node 0 are nodes 1 and 3.
abbrev pub topology : Topology
topology = record {
  regions_distribution = 250 ∷ 750 ∷ [];
  latencies = (10 ∷ 20 ∷ []) ∷ (20 ∷ 10 ∷ []) ∷ [];
  peer_lists = (1 ∷ 3 ∷ []) ∷ [];
}

regions_run : init_network machine small topology ≡ 1 ∷ 3 ∷ []
unfolding init_network
regions_run = refl

init_network_places_example :
    let ks = init_network machine small topology in
    (total ks ≡ 4) × Placed ks 2 0 (get_region ks 2 0)
init_network_places_example =
    init_network_places machine small topology 2 (λ e. cc) (omega arith) (omega arith)

abbrev block : Block
block = record {
  timestamp = 30;
  size = 10;
  miner = 2;
  prev_block_miner = 1;
  sender = 2;
  height = 3;
  is_attack_block = false;
  transaction_data = one 1;
}

connected : Connected machine machine-BitmapLaws small topology (1 ∷ 3 ∷ []) 0 (1 ∷ 3 ∷ [])
unfolding latency get_region
connected zero peer h = (20, ground arith)
connected (suc zero) peer h = (20, ground arith)
connected (suc (suc i)) peer h = cc

gossip_block_propagates_example :
    Propagated machine machine-BitmapLaws small topology
      (1 ∷ 3 ∷ [])
      block
      0
      (1 ∷ 3 ∷ [])
      (gossip_block machine small topology (1 ∷ 3 ∷ []) 2 0 30 block (5 ∷ []) (1 ∷ 3 ∷ []))
gossip_block_propagates_example =
    gossip_block_propagates machine machine-BitmapLaws small topology (1 ∷ 3 ∷ []) 2 0 30 block
      (5 ∷ []) (1 ∷ 3 ∷ []) (machine-IsFair _) connected

abbrev detailed : Globals
detailed = record globals { stats_type = stats_detailed }

receive_appends_example :
    (room : ℕ) × (0 < room)
    × (stats_receive_block_detailed detailed (counted 0 0) 2 3 30
        ≡ ok (record (counted 0 0) {
          detailed_stats = record ((counted 0 0).detailed_stats) {
            block_stats_capacity = room;
            block_stats = record { miner = 2; height = 3; received_time = 30 } ∷ [];
          };
        }))
receive_appends_example = receive_appends detailed (counted 0 0) 2 3 30 refl (omega arith)
