-- ===== src/Chain/Growth.antt =====
-- unorphanBlocks, resetLevels, moveChainForward, addBlock, generateBlock, receiveBlock and the
-- retrieval of blocks, of RBlockSim/src/Block.c. Allocations succeed.
-- `*orphan_index` is the index of the pointer that unorphanBlocks returns, in each of its steps.
pub mod Orphans
pub mod Tree
pub mod Lookup
pub mod Grown
pub mod Adoption
pub mod Rounds
pub mod Unorphaning
pub mod Room
pub mod Placement
pub mod Waiting
pub mod Attachment
pub mod Marks
pub mod Sound
pub mod First
pub mod Rooted
pub mod Following
pub mod Ledgers
use rblock_sim_reproducibili.Base.{
  ℕ, zero, suc, ◌+◌, ◌*◌, Bool, true, false, not, ◌&&◌, ◌||◌, Option, none, some, List, [], ◌∷◌,
  ◌++◌, length, replicate, ltb, leb, ◌==◌, if◌then◌else◌,
}
use rblock_sim_reproducibili.Run.{Run, ok, out_of_fuel, ◌>>=◌, deref}
use rblock_sim_reproducibili.Platform.{Double, Platform}
use rblock_sim_reproducibili.Config.{Constants, Globals, u32}
use rblock_sim_reproducibili.Transaction.{
  Transaction, TransactionData, TransactionState, generate_transaction_data,
}
use rblock_sim_reproducibili.Chain.{
  Block, ChainNode, ChainLevel, BlockTree, Ref, is_orphan, set_orphan, un_orphan, dec64,
  get_chain_level, put_chain_level, get_chain_node, put_chain_node, get_main_chain, find_chain_node,
}
use rblock_sim_reproducibili.Chain.ForkChoice.{chain_node_max}
use rblock_sim_reproducibili.Chain.Switch.{World, maybe_switch_chains}

-- `populateChainNode`
unfoldable pub populate_chain_node : Block → ChainNode
populate_chain_node b = record {
  parent = b.prev_block_miner;
  transaction_data = some b.transaction_data;
  timestamp = b.timestamp;
  miner = b.miner;
  height = b.height;
  score = 0;
  flags = 0;
  ancestors_mined = 0;
}

-- What linking a node to its parent, at place `index` of the level below, writes.
abbrev pub linked : ChainNode → ℕ → ChainNode → ChainNode
linked parent index n = record n {
  parent = index;
  ancestors_mined = parent.ancestors_mined;
  score = u32 (parent.score + 1);
}

-- `resetLevels`: the nodes are dropped, the room for them stays.
unfoldable pub reset_levels : List ChainLevel → List ChainLevel
reset_levels [] = []
reset_levels (l ∷ ls) = record l { nodes = [] } ∷ reset_levels ls

-- The search of `addBlock` for the parent, counting from `i`: the first node of that miner ends it.
unfoldable pub find_parent : List ChainNode → ℕ → ℕ → Option (ℕ × ChainNode)
find_parent [] miner i = none
find_parent (n ∷ ns) miner i =
    if n.miner == miner
    then (if is_orphan n then none else some (i, n))
    else find_parent ns miner (suc i)

module _ (c : Constants) where
  -- `moveChainForward`
  unfoldable pub move_chain_forward : BlockTree → BlockTree
  unfolding reset_levels
  move_chain_forward t = record t {
    old_levels = t.current_levels;
    current_levels = reset_levels t.old_levels;
    min_height = t.min_height + c.depth_to_keep;
  }

  -- The first step of `addBlock`.
  unfoldable pub make_room : BlockTree → ℕ → BlockTree
  unfolding move_chain_forward
  make_room t height =
      let higher = record t { max_height = height } in
      if ltb t.max_height height
      then (if leb (t.min_height + 2 * c.depth_to_keep) height
          then move_chain_forward higher
          else higher)
      else t

  -- `addBlock` up to the search for the parent: the new node goes to the end of its level.
  unfoldable pub append_node : BlockTree → ℕ → ChainNode → Run (BlockTree × Ref)
  append_node t height n = do
    l ← get_chain_level c t height
    let size = length l.nodes
    ok (
      put_chain_level c t height (record {
        nodes = l.nodes ++ n ∷ [];
        capacity = if leb l.capacity size then l.capacity + 1 else l.capacity;
      }),
      record { level = height; index = size },
    )

  -- `blockFromNode`; nothing initialises `sender`, which holds `junk`.
  unfoldable pub block_from_node : BlockTree → ℕ → ChainNode → Run Block
  block_from_node t junk n = do
    data' ← deref n.transaction_data
    prev ← elim (is_orphan n) [
      | true ↦ ok n.parent
      | false ↦
          get_chain_node c t (record { level = dec64 n.height; index = n.parent }) >>= λ parent.
          ok parent.miner
    ]
    ok (record {
      timestamp = n.timestamp;
      size = 10;
      miner = n.miner;
      prev_block_miner = prev;
      sender = junk;
      height = n.height;
      is_attack_block = false;
      transaction_data = data';
    })

  unfoldable pub retrieve_block : BlockTree → ℕ → ℕ → ℕ → Run (Option Block)
  unfolding block_from_node
  retrieve_block t junk miner height = find_chain_node c t miner height >>= λ found. elim found [
    | none ↦ ok none
    | some r ↦ do n ← get_chain_node c t r; b ← block_from_node t junk n; ok (some b)
  ]

  module _ (p : Platform) (g : Globals) where
    -- `chainNodeMax` on two pointers.
    unfoldable pub prefer : BlockTree → Ref → Ref → Run Ref
    prefer t a b = do
      x ← get_chain_node c t a
      y ← get_chain_node c t b
      first ← chain_node_max p g x y
      ok (if first then a else b)

    -- A pointer that may be NULL against one that is not.
    unfoldable pub prefer_new : BlockTree → Option Ref → Ref → Run Ref
    unfolding prefer
    prefer_new t none r = ok r
    prefer_new t (some b) r = prefer t b r

    unfoldable pub prefer_aux : BlockTree → Ref → Option Ref → Run Ref
    unfolding prefer
    prefer_aux t b none = ok b
    prefer_aux t b (some r) = prefer t b r

    -- The loop of `unorphanBlocks`; `descend` is its recursive call.
    unfoldable pub unorphan_loop :
        (BlockTree → Ref → ℕ → Run (BlockTree × Option Ref))
        → Ref
        → ℕ
        → ℕ
        → ℕ
        → BlockTree
        → Option Ref
        → Run (BlockTree × Option Ref)
    unfolding prefer_new prefer_aux
    unorphan_loop descend parent child_height zero i t best = ok (t, best)
    unorphan_loop descend parent child_height (suc rounds) i t best =
        let r : Ref = record { level = child_height; index = i } in
        get_chain_node c t r >>= λ n. get_chain_node c t parent >>= λ above.
        elim (is_orphan n && n.parent == above.miner) [
          | false ↦ unorphan_loop descend parent child_height rounds (i + 1) t best
          | true ↦ put_chain_node c t r (un_orphan (linked above parent.index n)) >>= λ t1.
              prefer_new t1 best r >>= λ best1. descend t1 r (child_height + 1) >>= λ (t2, aux).
              prefer_aux t2 best1 aux >>= λ best2.
              unorphan_loop descend parent child_height rounds (i + 1) t2 (some best2)
        ]

    -- The heights rise to `max_height` at most.
    unfoldable pub unorphan_blocks : ℕ → BlockTree → Ref → ℕ → Run (BlockTree × Option Ref)
    unfolding unorphan_loop
    unorphan_blocks zero t parent child_height = out_of_fuel
    unorphan_blocks (suc f) t parent child_height = elim (ltb t.max_height child_height) [
      | true ↦ ok (t, none)
      | false ↦ get_chain_level c t child_height >>= λ l.
          unorphan_loop (unorphan_blocks f) parent child_height (length l.nodes) 0 t none
    ]

    -- `addBlock` up to the call of `maybeSwitchChains`: the tree with the new node, its address, and the
    -- node that may become the main chain, when the new one is not an orphan.
    unfoldable pub attach_block : Double → BlockTree → Block → Run (BlockTree × Ref × Option Ref)
    unfolding make_room append_node find_parent populate_chain_node unorphan_blocks
    attach_block now t block =
        let room = make_room t block.height in
        let n : ChainNode = record (populate_chain_node block) { timestamp = now } in
        append_node room block.height n >>= λ (t1, r).
        get_chain_level c t1 (dec64 block.height) >>= λ below.
        elim (find_parent below.nodes n.parent 0) [
          | none ↦ put_chain_node c t1 r (set_orphan n) >>= λ t2. ok (t2, r, none)
          | some (i, parent) ↦ put_chain_node c t1 r (linked parent i n) >>= λ t2.
              unorphan_blocks (t2.max_height + 2) t2 r (block.height + 1) >>= λ (t3, dangling).
              prefer_aux t3 r dangling >>= λ best. ok (t3, r, some best)
        ]

    unfoldable pub add_block : ℕ → Double → World → Block → Run (World × Ref)
    unfolding attach_block
    add_block me now w block = attach_block now w.chain.tree block >>= λ (t, r, best).
        let attached : World = record w { chain = record (w.chain) { tree = t } } in
        elim best [
          | none ↦ ok (attached, r)
          | some b ↦ maybe_switch_chains p g me c attached b b.index >>= λ v. ok (v, r)
        ]

    -- `receiveBlock`: `validateBlock` accepts every block. The flags are those of the two out
    -- parameters, which the caller has set to false.
    unfoldable pub receive_block : ℕ → Double → World → Block → Run (World × Bool × Bool)
    unfolding add_block
    receive_block me now w block = do
      (v, r) ← add_block me now w block
      n ← get_chain_node c v.chain.tree r
      ok (
        v,
        not (v.chain.height == w.chain.height)
            || not (v.chain.main_chain_index == w.chain.main_chain_index),
        not (is_orphan n),
      )

-- `struct BlockchainState`, beside the chain itself, with the world that its functions also take.
pub record BlockchainState : Type 0 where
  pub world : World
  pub open world use *
  -- the two members of the union of `struct MiningState`, of which the code reads the one it wrote last
  pub hash_power : ℕ
  pub hash_power_portion : Double
  pub mined_by_me : ℕ

-- What `memset` leaves in place of a block's transactions.
abbrev pub no_transactions : TransactionData
no_transactions = record { low = 0; high = 0; included_transactions = replicate 8 0 }

module _ (p : Platform) (c : Constants) (g : Globals) (txns : ℕ → Transaction)
    (delivery : ℕ → ℕ → Double) where
  -- The transactions of a new block; with no view of transactions there are none.
  unfoldable pub choose_transactions :
      Option TransactionState → Double → ℕ → Option TransactionState × TransactionData
  choose_transactions none now me = (none, no_transactions)
  choose_transactions (some s) now me =
      let (t, chosen) = generate_transaction_data p c txns delivery s now me in
      (some t, elim chosen [ none ↦ no_transactions | some d ↦ d ])

  unfoldable pub generate_block : ℕ → Double → BlockchainState → Run (Block × BlockchainState)
  unfolding choose_transactions
  generate_block me now b = do
    let (txn, data') = choose_transactions b.world.txn now me
    main ← get_main_chain c b.world.chain
    let block : Block = record {
      timestamp = now;
      size = 10;
      miner = me;
      prev_block_miner = main.miner;
      sender = me;
      height = main.height + 1;
      is_attack_block = false;
      transaction_data = data';
    }
    (v, r) ← add_block c p g me now (record (b.world) { txn = txn }) block
    n ← get_chain_node c v.chain.tree r
    t ← put_chain_node c v.chain.tree r (record n { ancestors_mined = u32 (n.ancestors_mined + 1) })
    ok (
      block,
      record b {
        world = record v { chain = record (v.chain) { tree = t } };
        mined_by_me = u32 (b.mined_by_me + 1);
      },
    )
