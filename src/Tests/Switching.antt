-- ===== src/Tests/Switching.antt =====
-- Chain.Switch on a small tree: a main chain of one block, and a longer branch.
use rblock_sim_reproducibili.Base.{
  ℕ, zero, suc, ◌+◌, ◌*◌, ◌≡◌, refl, some, List, [], ◌∷◌, arith, ◌||◌,
}
use rblock_sim_reproducibili.Run.{ok}
use rblock_sim_reproducibili.Config.{is_attacker, Globals, attack_fifty_one, stats_fifty_one}
use rblock_sim_reproducibili.Transaction.{TransactionData, TransactionState}
use rblock_sim_reproducibili.Statistics.{StatsState, empty_detailed}
use rblock_sim_reproducibili.Transaction.Blocks.{executed}
use rblock_sim_reproducibili.Chain.{
  BlockTree, ChainLevel, ChainNode, Ref, genesis_block, get_chain_node, get_chain_level,
  check_height, get_parent_ref, main_ref,
}
use rblock_sim_reproducibili.Chain.Switch.{
  World, switch_chains, apply_chain_node, revert_applied_chain_node,
}
use rblock_sim_reproducibili.Chain.Switch.Ledger.{
  Agrees, ChainFits, listed, apply-Agrees, revert-Agrees,
}
use rblock_sim_reproducibili.Chain.Switch.Paths.{Located, Branch, here, up}
use rblock_sim_reproducibili.Chain.Switch.Refinement.{switch_chains_refines}
use rblock_sim_reproducibili.Tests.Machine.{machine, machine-BitmapLaws, test_bit-zero}
use rblock_sim_reproducibili.Tests.Transactions.{small}

-- Node 1 is the attacker.
abbrev pub globals : Globals
globals = record {
  stats_type = stats_fifty_one;
  attack_config = attack_fifty_one (record { hash_power_portion = 500; catchup_tolerance = 2 });
  is_attacker_bitmap = 2 ∷ [];
  current_node = 0;
  block_interval = 13000;
  total_hash_power = 20000;
}

abbrev pub node : ℕ → ℕ → ℕ → ℕ → TransactionData → ChainNode
node height parent miner ancestors data' = record {
  parent = parent;
  transaction_data = some data';
  timestamp = 10 * height + miner;
  miner = miner;
  height = height;
  score = height;
  flags = 0;
  ancestors_mined = ancestors;
}

-- The block of one transaction.
abbrev pub one : ℕ → TransactionData
one k = record { low = k; high = k + 1; included_transactions = 1 ∷ [] }

abbrev pub level : List ChainNode → ChainLevel
level ns = record { nodes = ns; capacity = 2 }

abbrev old_block : ChainNode
old_block = node 1 0 0 1 (one 0)

abbrev new_block : ChainNode
new_block = node 1 0 1 0 (one 0)

abbrev pub new_tip : ChainNode
new_tip = node 2 1 1 0 (one 1)

unfoldable pub tree : BlockTree
unfolding genesis_block
tree = record {
  old_levels = level (genesis_block machine ∷ []) ∷ level (old_block ∷ new_block ∷ []) ∷ [];
  current_levels = level (new_tip ∷ []) ∷ level [] ∷ [];
  max_height = 2;
  min_height = 0;
}

abbrev base_view : TransactionState
base_view = record { transactions_bitmap = 0 ∷ []; low = 0; high = 3 }

abbrev base_stats : StatsState
base_stats = record {
  detailed_stats = empty_detailed;
  fifty_one_stats = record { attacker_blocks_in_main_chain = 0; total_blocks_in_main_chain = 0 };
  selfish_stats = record {
    attacker_blocks_in_main_chain = 0;
    total_blocks_in_main_chain = 0;
    total_blocks_mined = 0;
    own_blocks_in_main_chain = 0;
    switches_to_selfish_chain = 0;
  };
}

abbrev pub counted : ℕ → ℕ → StatsState
counted attacker total = record base_stats {
  fifty_one_stats = record {
    attacker_blocks_in_main_chain = attacker;
    total_blocks_in_main_chain = total;
  };
}

-- The main chain is the old block on the genesis block.
abbrev pub world : World
world = record {
  chain = record { tree = tree; main_chain_index = 0; height = 1 };
  txn = some (record { transactions_bitmap = 1 ∷ []; low = 0; high = 3 });
  stats = counted 0 1;
}

abbrev IsLedger : List ChainNode → World → Type 0
IsLedger = Agrees machine machine-BitmapLaws small globals 0 base_view base_stats

abbrev Fitting : List ChainNode → Type 0
Fitting = ChainFits machine machine-BitmapLaws small globals 0 base_view base_stats 0

world-marks :
    (k : ℕ)
    → executed machine (record { transactions_bitmap = 1 ∷ []; low = 0; high = 3 }) k
      ≡ (listed machine globals 0 (old_block ∷ []) k || executed machine base_view k)
world-marks zero = refl
world-marks (suc k) = ground (arith, test_bit-zero k)

world-IsLedger : IsLedger (old_block ∷ []) world
unfolding is_attacker
world-IsLedger = record {
  view = record { transactions_bitmap = 1 ∷ []; low = 0; high = 3 };
  viewed = refl;
  valid = record {
    room = omega arith;
    low_in = omega arith;
    high_in = omega arith;
    prefix = λ k h. absurd (omega arith);
  };
  marks = λ k h. world-marks k;
  counted = refl;
}

old-Fitting : Fitting (old_block ∷ [])
old-Fitting = (
  record {
    height = refl;
    block = one 0;
    holds = refl;
    real = record { ordered = omega arith; high_in = omega arith };
    fresh = λ k h. (refl, test_bit-zero k);
  },
  tt,
)

new-Fitting : Fitting (new_tip ∷ new_block ∷ [])
new-Fitting = (
  record {
    height = refl;
    block = one 1;
    holds = refl;
    real = record { ordered = omega arith; high_in = omega arith };
    fresh = λ k h. (ground arith, test_bit-zero k);
  },
  (
    record {
      height = refl;
      block = one 0;
      holds = refl;
      real = record { ordered = omega arith; high_in = omega arith };
      fresh = λ k h. (refl, test_bit-zero k);
    },
    tt,
  ),
)

abbrev root : Ref
root = record { level = 0; index = 0 }

abbrev tip : Ref
tip = record { level = 2; index = 0 }

root-Located : Located small tree root
unfolding get_chain_node get_chain_level check_height tree
root-Located = record { node = _; loads = refl; stands = refl }

old-Branch : Branch small tree (main_ref world.chain) root (old_block ∷ [])
unfolding get_chain_node get_parent_ref get_chain_level check_height tree
old-Branch = up old_block refl refl (omega arith) refl here

new-Branch : Branch small tree tip root (new_tip ∷ new_block ∷ [])
unfolding get_chain_node get_parent_ref get_chain_level check_height tree
new-Branch =
    up new_tip refl refl (omega arith) refl (up new_block refl refl (omega arith) refl here)

switch_chains_refines_example :
    (v : World) × (switch_chains machine globals 0 small world tip 0 ≡ ok v)
    × IsLedger (new_tip ∷ new_block ∷ []) v
    × (v.chain ≡ record { tree = tree; main_chain_index = 0; height = 2 })
switch_chains_refines_example =
    switch_chains_refines machine machine-BitmapLaws small globals 0 base_view base_stats world root
      tip 0 (old_block ∷ []) (new_tip ∷ new_block ∷ []) root-Located old-Branch new-Branch
      old-Fitting new-Fitting world-IsLedger

revert-Agrees_example :
    (v : World) × (revert_applied_chain_node machine globals 0 world old_block ≡ ok v)
    × IsLedger [] v
    × (v.chain ≡ record { tree = tree; main_chain_index = 0; height = 0 })
revert-Agrees_example =
    revert-Agrees machine machine-BitmapLaws small globals 0 base_view base_stats 0 old_block []
      world old-Fitting.0 world-IsLedger

-- The genesis block alone.
abbrev start : World
start = record {
  chain = record { tree = tree; main_chain_index = 0; height = 0 };
  txn = some base_view;
  stats = counted 0 0;
}

start-IsLedger : IsLedger [] start
start-IsLedger = record {
  view = base_view;
  viewed = refl;
  valid = record {
    room = omega arith;
    low_in = omega arith;
    high_in = omega arith;
    prefix = λ k h. absurd (omega arith);
  };
  marks = λ k h. refl;
  counted = refl;
}

apply-Agrees_example :
    (v : World) × (apply_chain_node machine globals 0 start old_block ≡ ok v)
    × IsLedger (old_block ∷ []) v
    × (v.chain ≡ record { tree = tree; main_chain_index = 0; height = 1 })
apply-Agrees_example =
    apply-Agrees machine machine-BitmapLaws small globals 0 base_view base_stats 0 old_block []
      start old-Fitting.0 start-IsLedger
