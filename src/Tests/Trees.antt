-- ===== src/Tests/Trees.antt =====
-- The tree of blocks on small inputs: Chain.Growth.
use rblock_sim_reproducibili.Base.{
  List, sym, ℕ, ◌*◌, ◌≡◌, refl, subst, false, some, none, Bool, [], ◌∷◌, arith,
}
use rblock_sim_reproducibili.Run.{ok}
use rblock_sim_reproducibili.Config.{is_attacker, node_id_max}
use rblock_sim_reproducibili.Transaction.{init_transaction_state}
use rblock_sim_reproducibili.Transaction.Validity.{init-IsValid}
use rblock_sim_reproducibili.Chain.{
  get_parent_ref, genesis_ref, Block, BlockTree, Blockchain, ChainNode, Ref, empty_level,
  genesis_block, init_blockchain, get_chain_level, get_chain_node, check_height, is_orphan,
  set_orphan, generate_chain_levels, put_chain_level, put_chain_node,
}
use rblock_sim_reproducibili.Chain.ForkChoice.{chain_node_max, catchup_tolerance}
use rblock_sim_reproducibili.Chain.ForkChoice.Order.{chain_node_max_returns}
use rblock_sim_reproducibili.Chain.Switch.{World}
use rblock_sim_reproducibili.Chain.Switch.Ledger.{ChainFits}
use rblock_sim_reproducibili.Chain.Switch.Paths.{Branch, Branch-unique, here, up}
use rblock_sim_reproducibili.Chain.Growth.{
  attach_block, make_room, append_node, find_parent, populate_chain_node, unorphan_blocks,
  unorphan_loop, prefer_aux,
}
use rblock_sim_reproducibili.Chain.Growth.Tree.{IsTree, put-IsTree}
use rblock_sim_reproducibili.Chain.Growth.First.{init_blockchain-IsSound}
use rblock_sim_reproducibili.Chain.Growth.Grown.{Steady}
use rblock_sim_reproducibili.Chain.Growth.Adoption.{Adopted, AtLeast, AtLeast-refl}
use rblock_sim_reproducibili.Chain.Growth.Unorphaning.{unorphan_blocks-Adopted}
use rblock_sim_reproducibili.Chain.Growth.Attachment.{Attached, arrived, attach_block-Attached}
use rblock_sim_reproducibili.Chain.Growth.Room.{Trimmed-IsTree, make_room-Trimmed}
use rblock_sim_reproducibili.Chain.Growth.Placement.{end_free}
use rblock_sim_reproducibili.Chain.Levels.Nodes.{PutNode, append_level-PutNode}
use rblock_sim_reproducibili.Chain.Growth.Following.{Follows, IsBest}
use rblock_sim_reproducibili.Chain.Growth.Ledgers.{add_block-Follows, add_block-IsBest}
use rblock_sim_reproducibili.Chain.Growth.Rooted.{Branch-flat}
use rblock_sim_reproducibili.Chain.ForkChoice.Order.{honest-IsRanking}
use rblock_sim_reproducibili.Chain.Growth.{add_block}
use rblock_sim_reproducibili.Chain.Growth.Sound.{IsSound}
use rblock_sim_reproducibili.Tests.Machine.{machine, machine-BitmapLaws, test_bit-zero}
use rblock_sim_reproducibili.Tests.Transactions.{small}
use rblock_sim_reproducibili.Tests.Switching.{globals, one, counted}

-- The tree with the genesis block alone.
abbrev pub seed : Blockchain
seed = record {
  tree = record {
    old_levels = record { nodes = genesis_block machine ∷ []; capacity = 1 } ∷ empty_level ∷ [];
    current_levels = empty_level ∷ empty_level ∷ [];
    max_height = 0;
    min_height = 0;
  };
  main_chain_index = 0;
  height = 0;
}

seed-IsSound : IsSound small seed.tree
unfolding init_blockchain generate_chain_levels get_chain_level check_height put_chain_level
seed-IsSound = ((init_blockchain-IsSound small machine (omega arith)).holds seed refl).0

prefers : (a b : ChainNode) → (first : Bool) × (chain_node_max machine globals a b ≡ ok first)
unfolding catchup_tolerance
prefers = chain_node_max_returns machine globals 2 (λ attacks. refl)

abbrev block_at : ℕ → ℕ → ℕ → ℕ → Block
block_at height miner parent k = record {
  timestamp = 10 * height;
  size = 10;
  miner = miner;
  prev_block_miner = parent;
  sender = miner;
  height = height;
  is_attack_block = false;
  transaction_data = one k;
}

-- The block of node 3 on the one of node 2, which has not arrived.
abbrev pub second : Block
second = block_at 2 3 2 1

abbrev first : Block
first = block_at 1 2 node_id_max 0

unfoldable pub waiting_tree : BlockTree
unfolding genesis_block
waiting_tree = record {
  old_levels = record { nodes = genesis_block machine ∷ []; capacity = 1 } ∷ empty_level ∷ [];
  current_levels =
      record { nodes = set_orphan (arrived second 25) ∷ []; capacity = 1 } ∷ empty_level ∷ [];
  max_height = 2;
  min_height = 0;
}

waiting_runs :
    attach_block small machine globals 25 seed.tree second
    ≡ ok (waiting_tree, record { level = 2; index = 0 }, none)
unfolding genesis_block waiting_tree attach_block make_room append_node find_parent
    populate_chain_node put_chain_node get_chain_level check_height put_chain_level set_orphan
    is_orphan
waiting_runs = refl

pub waiting_tree-IsSound : IsSound small waiting_tree
waiting_tree-IsSound =
    let a =
      attach_block-Attached small 25 second machine globals prefers seed.tree (omega arith)
        seed-IsSound.tree (omega arith) (omega arith) in
    let same : a.tree ≡ waiting_tree = ground (arith, a.returns, waiting_runs) in
    subst (IsSound small) same
      (record { tree = a.shape; complete = a.complete seed-IsSound.complete })

-- The missing block arrives: the waiting one is linked too.
attach_block-Attached_example :
    Attached small 30 first machine globals waiting_tree
      (attach_block small machine globals 30 waiting_tree first)
unfolding waiting_tree
attach_block-Attached_example =
    attach_block-Attached small 30 first machine globals prefers waiting_tree (omega arith)
      waiting_tree-IsSound.tree (omega arith) (omega arith)

-- An orphan whose parent is the genesis block.
abbrev lost : ChainNode
lost = set_orphan (arrived first 30)

abbrev room : BlockTree
room = make_room small seed.tree 1

unfoldable lost_tree : BlockTree
lost_tree = put_chain_level small room 1 (record { nodes = lost ∷ []; capacity = 1 })

room-level : get_chain_level small room 1 ≡ ok empty_level
unfolding make_room get_chain_level check_height genesis_block
room-level = refl

room-IsTree : IsTree small room
room-IsTree =
    Trimmed-IsTree small seed.tree room
      (make_room-Trimmed small seed.tree 1 seed-IsSound.tree (omega arith)) seed-IsSound.tree

lost-place : PutNode small room (record { level = 1; index = 0 }) lost lost_tree
unfolding lost_tree
lost-place = append_level-PutNode small room 1 empty_level 1 lost room-IsTree.window room-level

lost_tree-IsTree : IsTree small lost_tree
unfolding make_room set_orphan is_orphan populate_chain_node
lost_tree-IsTree =
    put-IsTree small room (record { level = 1; index = 0 }) lost lost_tree lost-place
      (λ n loads. absurd (ground (arith, end_free small room 1 empty_level room-level, loads)))
      room-IsTree refl (omega arith) (λ steady. absurd (ground (arith, steady)))

genesis-Steady : Steady small lost_tree genesis_ref
unfolding lost_tree make_room put_chain_level get_chain_node get_chain_level check_height is_orphan
    genesis_block
genesis-Steady = record { node = genesis_block machine; loads = refl; steady = refl }

-- The search from the genesis block links the orphan above it.
unorphan_blocks-Adopted_example :
    Adopted small machine globals lost_tree genesis_ref none
      (unorphan_blocks small machine globals 3 lost_tree genesis_ref 1)
unfolding lost_tree make_room put_chain_level
unorphan_blocks-Adopted_example =
    unorphan_blocks-Adopted small machine globals prefers 3 lost_tree genesis_ref lost_tree-IsTree
      genesis-Steady (omega arith) (omega arith)

-- A node that has just started, and the first block.
abbrev pub start : World
start = record {
  chain = seed;
  txn = some (init_transaction_state machine small);
  stats = counted 0 0;
}

abbrev FollowsStart : World → Type 0
FollowsStart =
    Follows machine machine-BitmapLaws small globals 0 (init_transaction_state machine small)
      (counted 0 0) genesis_ref

start-Follows : FollowsStart start
unfolding init_blockchain generate_chain_levels get_chain_level check_height put_chain_level
start-Follows =
    let (sound, rooted, place) =
      (init_blockchain-IsSound small machine (omega arith)).holds seed refl in
    record {
      sound = sound;
      rooted = rooted;
      main = rooted.bottom;
      blocks = [];
      path = here;
      fits = tt;
      ledger = record {
        view = init_transaction_state machine small;
        viewed = refl;
        valid = init-IsValid machine machine-BitmapLaws small;
        marks = λ k h. refl;
        counted = refl;
      };
    }

abbrev first_node : ChainNode
first_node = record {
  parent = 0;
  transaction_data = some (one 0);
  timestamp = 30;
  miner = 2;
  height = 1;
  score = 1;
  flags = 0;
  ancestors_mined = 0;
}

unfoldable grown_tree : BlockTree
unfolding genesis_block
grown_tree = record {
  old_levels =
      record { nodes = genesis_block machine ∷ []; capacity = 1 }
      ∷ record { nodes = first_node ∷ []; capacity = 1 }
      ∷ [];
  current_levels = empty_level ∷ empty_level ∷ [];
  max_height = 1;
  min_height = 0;
}

abbrev first_ref : Ref
first_ref = record { level = 1; index = 0 }

first_runs :
    attach_block small machine globals 30 seed.tree first
    ≡ ok (grown_tree, first_ref, some first_ref)
unfolding genesis_block grown_tree attach_block make_room append_node find_parent
    populate_chain_node put_chain_node get_chain_level check_height put_chain_level is_orphan
    unorphan_blocks unorphan_loop prefer_aux
first_runs = refl

first_path : Branch small grown_tree first_ref genesis_ref (first_node ∷ [])
unfolding genesis_block grown_tree get_chain_node get_chain_level check_height get_parent_ref
first_path = up first_node refl refl (omega arith) refl here

first-Fits :
    ChainFits machine machine-BitmapLaws small globals 0
      (init_transaction_state machine small)
      (counted 0 0)
      0
      (first_node ∷ [])
unfolding init_transaction_state
first-Fits = (
  record {
    height = refl;
    block = one 0;
    holds = refl;
    real = record { ordered = omega arith; high_in = omega arith };
    fresh = λ k h. (refl, test_bit-zero k);
  },
  tt,
)

chosen-Fits :
    (t : BlockTree) (place best : Ref) (ns : List ChainNode)
    → attach_block small machine globals 30 start.chain.tree first ≡ ok (t, place, some best)
    → Branch small t best genesis_ref ns
    → ChainFits machine machine-BitmapLaws small globals 0
        (init_transaction_state machine small)
        (counted 0 0)
        0
        ns
chosen-Fits t place best ns runs path =
    let e : (grown_tree ≡ t) × (first_ref ≡ best) = ground (arith, runs, first_runs) in
    let same : first_node ∷ [] ≡ ns =
      Branch-unique small t
        (subst (λ x. Branch small x first_ref genesis_ref (first_node ∷ [])) e.0 first_path) path
        e.1 refl in
    subst
      (ChainFits machine machine-BitmapLaws small globals 0 (init_transaction_state machine small)
        (counted 0 0) 0)
      same first-Fits

add_block-Follows_example :
    (v : World) × (r : Ref) × (add_block small machine globals 0 30 start first ≡ ok (v, r))
    × FollowsStart v
unfolding make_room
add_block-Follows_example =
    add_block-Follows machine machine-BitmapLaws small globals 0
      (init_transaction_state machine small) (counted 0 0) prefers genesis_ref 30 first start
      start-Follows (omega arith) (omega arith) (omega arith) chosen-Fits

start-IsBest : IsBest small machine globals start
unfolding is_attacker
start-IsBest q s =
    let f = start-Follows in
    let e : q ≡ genesis_ref =
      Branch-flat small seed.tree (f.rooted.all q s (omega arith)).path
        (omega (arith, f.sound.tree.below_top q s.node s.loads)) in
    subst (AtLeast small machine globals seed.tree genesis_ref) (sym e) (
      AtLeast-refl small machine globals prefers seed.tree genesis_ref
        (honest-IsRanking machine globals refl))

add_block-IsBest_example :
    (v : World) × (r : Ref) × (add_block small machine globals 0 30 start first ≡ ok (v, r))
    × IsBest small machine globals v
unfolding make_room is_attacker
add_block-IsBest_example =
    add_block-IsBest machine machine-BitmapLaws small globals 0
      (init_transaction_state machine small) (counted 0 0) prefers genesis_ref 30 first start
      start-Follows (omega arith) (omega arith) (omega arith) chosen-Fits
      (honest-IsRanking machine globals refl) start-IsBest
