-- ===== src/Tests/Runs.antt =====
-- Node.Sound on a run of two events: LP_INIT and a block whose parent is missing.
use rblock_sim_reproducibili.Base.{◌≡◌, refl, none, [], ◌∷◌, arith}
use rblock_sim_reproducibili.Run.{ok}
use rblock_sim_reproducibili.Config.{is_attacker}
use rblock_sim_reproducibili.Transaction.{init_transaction_state}
use rblock_sim_reproducibili.Chain.{
  find_chain_node, find_miner, genesis_block, init_blockchain, get_chain_level, get_chain_node,
  check_height, is_orphan, set_orphan, generate_chain_levels, put_chain_level, put_chain_node,
}
use rblock_sim_reproducibili.Chain.ForkChoice.{catchup_tolerance}
use rblock_sim_reproducibili.Chain.Growth.{
  attach_block, make_room, append_node, find_parent, populate_chain_node, receive_block,
}
use rblock_sim_reproducibili.Chain.Growth.{add_block}
use rblock_sim_reproducibili.Chain.Growth.Sound.{IsSound}
use rblock_sim_reproducibili.Mining.{init_blockchain_state, normal_expanded}
use rblock_sim_reproducibili.Network.{
  init_message, receive_block_message, request_block_message, send_message, get_transmission_delay,
  latency, get_region, propagate_block, gossip_block, gossip_all, gossip_some, draw_peer,
  send_single_block,
}
use rblock_sim_reproducibili.Node.{NodeState, Outcome, chain_tree, count_received, request_parent}
use rblock_sim_reproducibili.Node.Handlers.{
  process_event, handle, handle_receive, receive_new, receive_known, request_missing,
}
use rblock_sim_reproducibili.Node.Sound.{NodeRun, started, handled, NodeRun-IsSound}
use rblock_sim_reproducibili.Statistics.{init_fifty_one_statistics_state}
use rblock_sim_reproducibili.Node.Start.{init_node, init_chain, init_statistics, new_attacker}
use rblock_sim_reproducibili.Tests.Machine.{machine}
use rblock_sim_reproducibili.Tests.Transactions.{small, txns}
use rblock_sim_reproducibili.Tests.Switching.{globals, counted}
use rblock_sim_reproducibili.Tests.Networks.{topology}
-- The tree with the genesis block alone.
use rblock_sim_reproducibili.Tests.Trees.{seed, second, start, waiting_tree}

-- The node after LP_INIT, and after the block whose parent has not arrived.
abbrev pub node_started : NodeState
node_started = record {
  rng = 1235 ∷ [];
  blockchain_state = record {
    world = start;
    hash_power = 5000;
    hash_power_portion = 0;
    mined_by_me = 0;
  };
  attacker = new_attacker;
}

node_started_runs :
    init_node machine small globals 0 0 (counted 7 9)
    ≡ ok (node_started, record { receiver = 0; time = 0; message = init_message }, 25000)
unfolding init_node init_chain init_statistics init_blockchain_state init_blockchain
    generate_chain_levels get_chain_level check_height put_chain_level normal_expanded
    init_transaction_state is_attacker genesis_block init_fifty_one_statistics_state
node_started_runs = refl

unfoldable node_received : NodeState
unfolding waiting_tree
node_received = record node_started {
  rng = 1238 ∷ [];
  blockchain_state = record (node_started.blockchain_state) {
    world = record start { chain = record seed { tree = waiting_tree } };
  };
}

-- It asks for the parent, and passes the block on.
abbrev received : Outcome
received = record {
  state = node_received;
  events =
      record { receiver = 3; time = 45; message = request_block_message 0 2 1 }
      ∷ record {
        receiver = 1;
        time = 45;
        message = receive_block_message (record second { sender = 0 });
      }
      ∷ [];
  next_block = none;
}

received_runs :
    process_event machine small topology
      (1 ∷ 3 ∷ [])
      globals
      txns
      10
      0
      25
      node_started
      (receive_block_message second)
    ≡ ok received
unfolding node_received waiting_tree process_event handle handle_receive receive_new receive_known
    request_missing count_received request_parent send_message get_transmission_delay latency
    get_region propagate_block gossip_block gossip_all gossip_some draw_peer send_single_block
    receive_block add_block attach_block make_room append_node find_parent populate_chain_node
    put_chain_node get_chain_node get_chain_level check_height put_chain_level is_orphan set_orphan
    find_chain_node find_miner genesis_block
received_runs = refl

node_received-NodeRun : NodeRun machine small topology (1 ∷ 3 ∷ []) globals txns 10 0 node_received
node_received-NodeRun =
    handled 25 (receive_block_message second) 20000 node_started received
      (started 0 (counted 7 9) 20000 node_started
        (record { receiver = 0; time = 0; message = init_message }) 25000 node_started_runs)
      received_runs

NodeRun-IsSound_example : IsSound small (chain_tree node_received)
unfolding catchup_tolerance
NodeRun-IsSound_example =
    NodeRun-IsSound machine small topology (1 ∷ 3 ∷ []) globals txns 10 0 2 node_received
      (omega arith) (omega arith) (λ attacks. refl) node_received-NodeRun
