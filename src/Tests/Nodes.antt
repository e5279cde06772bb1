-- ===== src/Tests/Nodes.antt =====
-- Chain.Levels, Chain.Growth, Node, Options and the table of transactions on small inputs.
use rblock_sim_reproducibili.Base.{
  ◌+◌, ◌^◌, ◌-◌, ◌≤◌, ◌<◌, ◌≡◌, refl, true, false, none, some, List, [], ◌∷◌, arith,
}
use rblock_sim_reproducibili.Run.{ok, abort, fault}
use rblock_sim_reproducibili.Config.{
  stats_selfish, SelfishConfig, AttackConfig, attack_selfish_mining,
}
use rblock_sim_reproducibili.Transaction.{generate_transactions}
use rblock_sim_reproducibili.Transaction.Table.{Entry, generate_transactions-Entry}
use rblock_sim_reproducibili.Chain.{
  Block, get_chain_level, put_chain_level, get_chain_node, genesis_block, find_chain_node,
}
use rblock_sim_reproducibili.Chain.Growth.{
  move_chain_forward, make_room, find_parent, receive_block,
}
use rblock_sim_reproducibili.Chain.Levels.{
  IsWindow, InWindow, get_chain_level_window, get_chain_level-put,
}
use rblock_sim_reproducibili.Chain.Levels.Moves.{
  move_chain_forward_keeps, move_chain_forward_empties, make_room_covers,
}
use rblock_sim_reproducibili.Chain.Growth.Orphans.{OrphanKept, receive_block-OrphanKept}
use rblock_sim_reproducibili.Node.{NodeState, mine_selfishly}
use rblock_sim_reproducibili.Node.Selfish.{Concealed, mine_selfishly_conceals}
use rblock_sim_reproducibili.Options.{
  CommandOption, opt_attack, opt_hashpower, opt_catchup_tolerance, name_selfish, Settings,
  handle_options, type_selfish_mining,
}
use rblock_sim_reproducibili.Options.Bounds.{DoubleOrder, Configured, handle_options-Configured}
use rblock_sim_reproducibili.Tests.Machine.{machine}
use rblock_sim_reproducibili.Tests.Transactions.{small}
use rblock_sim_reproducibili.Tests.Switching.{globals, one, tree, world, new_tip, level}
use rblock_sim_reproducibili.Tests.Networks.{topology}

generate_transactions-Entry_example :
    Entry machine small 0 2 (generate_transactions machine small 8 0 (5 ∷ [])).0
generate_transactions-Entry_example =
    generate_transactions-Entry machine small 8 0 2 (5 ∷ []) (λ r. refl) (omega arith)

tree-IsWindow : IsWindow small tree
unfolding tree
tree-IsWindow = record { old = refl; current = refl }

-- The first height above the window is not refused.
get_chain_level_window_example : get_chain_level small tree 4 ≡ fault
unfolding tree
get_chain_level_window_example = get_chain_level_window small tree 4 tree-IsWindow

get_chain_level-put_example :
    IsWindow small (put_chain_level small tree 2 (level []))
    × (get_chain_level small (put_chain_level small tree 2 (level [])) 2 ≡ ok (level []))
unfolding tree
get_chain_level-put_example =
    get_chain_level-put small tree 2 2 (level []) tree-IsWindow (omega arith, omega arith)
      (omega arith, omega arith)

move_chain_forward_keeps_example :
    IsWindow small (move_chain_forward small tree)
    × (get_chain_level small (move_chain_forward small tree) 2 ≡ get_chain_level small tree 2)
unfolding tree
move_chain_forward_keeps_example =
    move_chain_forward_keeps small tree 2 tree-IsWindow (omega arith) (omega arith)

move_chain_forward_empties_example :
    (get_chain_level small (move_chain_forward small tree) 4 ≡ ok (level []))
    × (get_chain_level small (move_chain_forward small tree) 0 ≡ abort)
unfolding tree get_chain_level
move_chain_forward_empties_example =
    move_chain_forward_empties small tree 0 (level (genesis_block machine ∷ [])) (omega arith)
      (omega arith) refl

make_room_covers_example :
    let room = make_room small tree 4 in
    IsWindow small room
    × InWindow small room 4
    × InWindow small room 3
    × (4 ≤ room.max_height)
    × (room.max_height < room.min_height + 4)
unfolding tree
make_room_covers_example =
    make_room_covers small tree 4 (omega arith) tree-IsWindow (omega arith) (omega arith)
      (omega arith)

-- A block of node 3, whose parent node 2 mined: the tree has no such node.
abbrev stray : Block
stray = record {
  timestamp = 30;
  size = 10;
  miner = 3;
  prev_block_miner = 2;
  sender = 2;
  height = 3;
  is_attack_block = false;
  transaction_data = one 1;
}

receive_block-OrphanKept_example :
    OrphanKept small machine globals 0 35 world stray
      (receive_block small machine globals 0 35 world stray)
unfolding tree get_chain_level make_room find_parent
receive_block-OrphanKept_example =
    receive_block-OrphanKept small machine globals 0 35 world stray (level (new_tip ∷ []))
      (omega arith) tree-IsWindow (omega arith) (omega arith) (omega arith) refl refl

abbrev state : NodeState
state = record {
  rng = 5 ∷ [];
  blockchain_state = record {
    world = world;
    hash_power = 5000;
    hash_power_portion = 250;
    mined_by_me = 0;
  };
  attacker = record {
    last_propagated_height = 0;
    failed_attacks = 0;
    successful_conceals = 0;
    is_selfish_mining = true;
    finished_selfish_mining = false;
  };
}

abbrev selfish : SelfishConfig
selfish = record { hash_power_portion = 340; depth = 2; catchup_tolerance = 1; start_time = 0 }

-- The first block on the genesis block: the attack starts anew, and one block is concealed.
abbrev own_block : Block
own_block = record stray { height = 1; miner = 0; prev_block_miner = 2 ^ 32 - 1 }

abbrev concealing : NodeState
concealing = record state { attacker = record (state.attacker) { failed_attacks = 1 } }

mining_run :
    mine_selfishly machine small topology (1 ∷ 3 ∷ []) globals 2 selfish 0 40 own_block state
    ≡ ok (concealing, [])
unfolding tree mine_selfishly find_chain_node get_chain_level get_chain_node genesis_block
mining_run = refl

mine_selfishly_conceals_example :
    Concealed machine small topology (1 ∷ 3 ∷ []) globals selfish state concealing []
mine_selfishly_conceals_example =
    mine_selfishly_conceals machine small topology (1 ∷ 3 ∷ []) globals 2 selfish 0 40 own_block
      state concealing [] mining_run refl

abbrev options : List CommandOption
options = opt_attack name_selfish ∷ opt_hashpower 250 ∷ opt_catchup_tolerance 2 ∷ []

abbrev attack : AttackConfig
attack =
    attack_selfish_mining
      (record { hash_power_portion = 250; depth = 2; catchup_tolerance = 2; start_time = 600000 })

abbrev settings : Settings
settings = record {
  n_threads = 0;
  block_interval = 13000;
  attack_type = type_selfish_mining;
  stats_type = stats_selfish;
  hashpower = 250;
  attack_depth = none;
  catchup_tolerance = some 2;
  start_time = 0;
  rng_seed = 1234;
}

options_run : handle_options machine small options ≡ ok (settings, attack)
unfolding handle_options
options_run = refl

-- A hash power that is no number passes the tests of its range.
options_nan_run :
    handle_options machine small (opt_attack name_selfish ∷ opt_hashpower machine.nan ∷ [])
    ≡ ok (
      record settings { hashpower = machine.nan; catchup_tolerance = none },
      attack_selfish_mining (record {
        hash_power_portion = machine.nan;
        depth = 2;
        catchup_tolerance = 1;
        start_time = 600000;
      }),
    )
unfolding handle_options
options_nan_run = refl

machine-DoubleOrder : DoubleOrder machine
machine-DoubleOrder = record {
  selfish_low = omega arith;
  selfish_high = omega arith;
  fifty_one_low = omega arith;
  fifty_one_high = omega arith;
  start_low = omega arith;
  minus_one = λ e. absurd (omega (arith, e));
  zero_number = λ e. absurd (omega (arith, e));
  one_number = λ e. absurd (omega (arith, e));
}

handle_options-Configured_example :
    Configured machine small attack × (settings.stats_type ≡ stats_selfish)
handle_options-Configured_example =
    handle_options-Configured machine small options settings attack machine-DoubleOrder
      (omega arith) options_run
