-- ===== src/Chain.antt =====
-- RBlockSim/src/Block.h and the accessors of Block.c: the blocks, the tree of blocks that a node
-- keeps, and how it is read and written. A pointer to a ChainNode is a `Ref`.
pub mod ForkChoice
pub mod Switch
pub mod Growth
pub mod Levels
use rblock_sim_reproducibili.Base.{
  ℕ, zero, suc, ◌+◌, ◌-◌, ◌*◌, ◌%◌, ◌^◌, Bool, true, false, Option, none, some, List, [], ◌∷◌,
  length, get_elem?, set, replicate, arith, ltb, leb, ◌==◌, if◌then◌else◌,
}
use rblock_sim_reproducibili.Run.{Run, ok, abort, ◌>>=◌, ◌>>◌, deref, abort_if}
use rblock_sim_reproducibili.Platform.{Double, Platform}
use rblock_sim_reproducibili.Config.{Constants, node_id_max}
use rblock_sim_reproducibili.Transaction.{TransactionData, TransactionState}
use rblock_sim_reproducibili.Statistics.{StatsState}

pub record Block : Type 0 where
  pub timestamp : Double
  pub size : ℕ
  pub miner : ℕ
  pub prev_block_miner : ℕ
  pub sender : ℕ
  pub height : ℕ
  pub is_attack_block : Bool
  pub transaction_data : TransactionData

-- `parent` is the union of `parent_index` and `parentMinerId`: the id while the node is an orphan,
-- the index afterwards.
pub record ChainNode : Type 0 where
  pub parent : ℕ
  pub transaction_data : Option TransactionData
  pub timestamp : Double
  pub miner : ℕ
  pub height : ℕ
  pub score : ℕ
  pub flags : ℕ
  pub ancestors_mined : ℕ

-- The nodes in use; `size` is their number.
pub record ChainLevel : Type 0 where
  pub nodes : List ChainNode
  pub capacity : ℕ

-- What a `struct Blockchain` holds beside the two fields that say which chain is the main one.
pub record BlockTree : Type 0 where
  pub current_levels : List ChainLevel
  pub old_levels : List ChainLevel
  pub max_height : ℕ
  pub min_height : ℕ

pub record Blockchain : Type 0 where
  pub tree : BlockTree
  pub open tree use *
  pub main_chain_index : ℕ
  pub height : ℕ

-- The address of a ChainNode: the height of its level, and its place there.
pub record Ref : Type 0 where
  pub level : ℕ
  pub index : ℕ

abbrev pub same_ref : Ref → Ref → Bool
same_ref a b = if a.level == b.level then a.index == b.index else false

-- `isOrphan`, `setOrphan` and `unOrphan`: the last one is `flags &= !CHAIN_NODE_FLAG_ORPHAN`, where
-- `!1` is 0.
unfoldable pub is_orphan : ChainNode → Bool
is_orphan n = n.flags % 2 == 1

unfoldable pub set_orphan : ChainNode → ChainNode
set_orphan n = record n { flags = if n.flags % 2 == 1 then n.flags else n.flags + 1 }

unfoldable pub un_orphan : ChainNode → ChainNode
un_orphan n = record n { flags = 0 }

unfoldable pub genesis_block : Platform → ChainNode
genesis_block p = record {
  parent = node_id_max;
  transaction_data = none;
  timestamp = p.minus_one;
  miner = node_id_max;
  height = 0;
  score = 0;
  flags = 0;
  ancestors_mined = 0;
}

abbrev pub empty_level : ChainLevel
empty_level = record { nodes = []; capacity = 0 }

-- `x - 1` on a `size_t`.
abbrev pub dec64 : ℕ → ℕ
dec64 x = if x == 0 then 2 ^ 64 - 1 else x - 1

-- The address that `getMainChain` returns.
abbrev pub main_ref : Blockchain → Ref
main_ref b = record { level = b.height; index = b.main_chain_index }

-- Where the genesis block stands.
abbrev pub genesis_ref : Ref
genesis_ref = record { level = 0; index = 0 }

module _ (c : Constants) where
  -- `generateChainLevels`, with `initChainLevel`
  unfoldable pub generate_chain_levels : List ChainLevel
  generate_chain_levels = replicate c.depth_to_keep empty_level

  -- The two tests of `getChainLevel`; the second one is compiled in, for no build defines NDEBUG.
  unfoldable pub check_height : BlockTree → ℕ → Run (Unit {0})
  check_height t height = do
    abort_if (ltb height t.min_height)
    abort_if (ltb (t.min_height + 2 * c.depth_to_keep) height)

  -- `getChainLevel`, to read the level and to write it back.
  unfoldable pub get_chain_level : BlockTree → ℕ → Run ChainLevel
  unfolding check_height
  get_chain_level t height = do
    check_height t height
    let depth = height - t.min_height
    deref (
        if ltb depth c.depth_to_keep
        then get_elem? t.old_levels depth
        else get_elem? t.current_levels (depth - c.depth_to_keep))

  unfoldable pub put_chain_level : BlockTree → ℕ → ChainLevel → BlockTree
  put_chain_level t height l =
      let depth = height - t.min_height in
      if ltb depth c.depth_to_keep
      then record t { old_levels = set t.old_levels depth l }
      else record t { current_levels = set t.current_levels (depth - c.depth_to_keep) l }

  -- `getChainNode`, with the read through its result.
  unfoldable pub get_chain_node : BlockTree → Ref → Run ChainNode
  get_chain_node t r = do l ← get_chain_level t r.level; deref (get_elem? l.nodes r.index)

  -- `getChainNode(chain, node->height - 1, node->parent_index)`, an address: the level is read, the
  -- node is not.
  unfoldable pub get_parent_ref : BlockTree → ChainNode → Run Ref
  get_parent_ref t n = do
    l ← get_chain_level t (dec64 n.height)
    ok (record { level = dec64 n.height; index = n.parent })

  -- A write through a pointer to a ChainNode.
  unfoldable pub put_chain_node : BlockTree → Ref → ChainNode → Run BlockTree
  put_chain_node t r n = do
    l ← get_chain_level t r.level
    old ← deref (get_elem? l.nodes r.index)
    ok (put_chain_level t r.level (record l { nodes = set l.nodes r.index n }))

  unfoldable pub get_main_chain : Blockchain → Run ChainNode
  get_main_chain b = get_chain_node b.tree (main_ref b)

  -- The loop of `findChainNode`, counting from `i`.
  unfoldable pub find_miner : List ChainNode → ℕ → ℕ → Option ℕ
  find_miner [] miner i = none
  find_miner (n ∷ ns) miner i = if n.miner == miner then some i else find_miner ns miner (suc i)

  unfoldable pub find_chain_node : BlockTree → ℕ → ℕ → Run (Option Ref)
  unfolding find_miner
  find_chain_node t miner height = if ltb t.max_height height then ok none else do
    l ← get_chain_level t height
    ok (elim (find_miner l.nodes miner 0) [
      | none ↦ none
      | some i ↦ some (record { level = height; index = i })
    ])

  -- `initBlockchain`
  unfoldable pub init_blockchain : Platform → Run Blockchain
  unfolding generate_chain_levels
  init_blockchain p = do
    let t : BlockTree = record {
      current_levels = generate_chain_levels;
      old_levels = generate_chain_levels;
      max_height = 0;
      min_height = 0;
    }
    l ← get_chain_level t 0
    ok (record {
      tree = put_chain_level t 0 (record l { nodes = genesis_block p ∷ []; capacity = 1 });
      main_chain_index = 0;
      height = 0;
    })
