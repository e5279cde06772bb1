-- ===== src/Chain/Switch.antt =====
-- applyChainNode, revertAppliedChainNode, switchChains and maybeSwitchChains of
-- RBlockSim/src/Block.c: how a node moves its main chain from one branch to another.
-- The buffer `to_apply` is a list, its last entry first; that it grows by `realloc` is not modelled.
pub mod Ledger
pub mod Paths
pub mod Loops
pub mod Refinement
pub mod Untouched
use rblock_sim_reproducibili.Base.{
  ℕ, zero, suc, ◌+◌, true, false, not, ◌&&◌, Option, none, some, List, [], ◌∷◌, ltb,
}
use rblock_sim_reproducibili.Run.{Run, ok, out_of_fuel, ◌>>=◌, deref}
use rblock_sim_reproducibili.Platform.{Platform}
use rblock_sim_reproducibili.Config.{
  Constants, Globals, StatsType, stats_none, stats_detailed, stats_fifty_one, stats_selfish,
}
use rblock_sim_reproducibili.Transaction.{
  TransactionData, TransactionState, apply_block_transactions, revert_applied_block_transactions,
}
use rblock_sim_reproducibili.Statistics.{
  StatsState, stats_add_block_fifty_one, stats_remove_block_fifty_one, stats_add_block_selfish,
  stats_remove_block_selfish,
}
use rblock_sim_reproducibili.Chain.{
  Blockchain, BlockTree, ChainNode, Ref, same_ref, dec64, get_chain_node, get_main_chain,
  get_parent_ref, main_ref,
}
use rblock_sim_reproducibili.Chain.ForkChoice.{chain_node_max}

-- What these functions change: the chain, the view of the transactions (`none` for NULL) and the
-- statistics.
pub record World : Type 0 where
  pub chain : Blockchain
  pub txn : Option TransactionState
  pub stats : StatsState

module _ (p : Platform) (g : Globals) (me : ℕ) where
  -- With no view of transactions the data is not read; with one, NULL data is dereferenced.
  unfoldable pub apply_txns :
      Option TransactionState → Option TransactionData → Run (Option TransactionState)
  apply_txns none data' = ok none
  apply_txns (some t) data' = do d ← deref data'; ok (some (apply_block_transactions p t d))

  unfoldable pub revert_txns :
      Option TransactionState → Option TransactionData → Run (Option TransactionState)
  revert_txns none data' = ok none
  revert_txns (some t) data' = do
    d ← deref data'
    ok (some (revert_applied_block_transactions p t d))

  unfoldable pub add_block_stats : StatsType → StatsState → ℕ → Run StatsState
  add_block_stats stats_none s miner = ok s
  add_block_stats stats_detailed s miner = ok s
  add_block_stats stats_fifty_one s miner = stats_add_block_fifty_one p g s miner me
  add_block_stats stats_selfish s miner = stats_add_block_selfish p g s miner me

  unfoldable pub remove_block_stats : StatsType → StatsState → ℕ → Run StatsState
  remove_block_stats stats_none s miner = ok s
  remove_block_stats stats_detailed s miner = ok s
  remove_block_stats stats_fifty_one s miner = stats_remove_block_fifty_one p g s miner me
  remove_block_stats stats_selfish s miner = stats_remove_block_selfish p g s miner me

  unfoldable pub apply_chain_node : World → ChainNode → Run World
  unfolding apply_txns add_block_stats
  apply_chain_node w n = do
    txn ← apply_txns w.txn n.transaction_data
    stats ← add_block_stats g.stats_type w.stats n.miner
    ok (record { chain = record (w.chain) { height = n.height }; txn = txn; stats = stats })

  unfoldable pub revert_applied_chain_node : World → ChainNode → Run World
  unfolding revert_txns remove_block_stats
  revert_applied_chain_node w n = do
    txn ← revert_txns w.txn n.transaction_data
    stats ← remove_block_stats g.stats_type w.stats n.miner
    ok (record {
      chain = record (w.chain) { height = dec64 n.height; main_chain_index = n.parent };
      txn = txn;
      stats = stats;
    })

  -- The last loop of `switchChains`.
  unfoldable pub apply_all : List ChainNode → World → Run World
  apply_all [] w = ok w
  apply_all (n ∷ ns) w = apply_chain_node w n >>= apply_all ns

  module _ (c : Constants) where
    -- The first loop: the walker goes down the new chain to the height of the main one.
    unfoldable pub descend_new :
        ℕ → BlockTree → ℕ → Ref → List ChainNode → Run (Ref × List ChainNode)
    descend_new zero t height walker to_apply = out_of_fuel
    descend_new (suc f) t height walker to_apply = get_chain_node c t walker >>= λ n.
        elim (ltb height n.height) [
          | true ↦ get_parent_ref c t n >>= λ parent. descend_new f t height parent (n ∷ to_apply)
          | false ↦ ok (walker, to_apply)
        ]

    -- The second loop: the main chain is reverted down to the height of the new one.
    unfoldable pub descend_main : ℕ → World → ℕ → Ref → Run (Ref × World)
    descend_main zero w height walker = out_of_fuel
    descend_main (suc f) w height walker = get_chain_node c w.chain.tree walker >>= λ n.
        elim (ltb height n.height) [
          | true ↦ revert_applied_chain_node w n >>= λ v.
              get_parent_ref c v.chain.tree n >>= λ parent. descend_main f v height parent
          | false ↦ ok (walker, w)
        ]

    -- The third loop: both walk down until they meet.
    unfoldable pub descend_both :
        ℕ → World → Ref → Ref → List ChainNode → Run (World × List ChainNode)
    descend_both zero w main walker to_apply = out_of_fuel
    descend_both (suc f) w main walker to_apply = elim (same_ref main walker) [
      | true ↦ ok (w, to_apply)
      | false ↦ get_chain_node c w.chain.tree main >>= λ m. revert_applied_chain_node w m >>= λ v.
          get_parent_ref c v.chain.tree m >>= λ below_main.
          get_chain_node c v.chain.tree walker >>= λ n.
          get_parent_ref c v.chain.tree n >>= λ below_walker.
          descend_both f v below_main below_walker (n ∷ to_apply)
    ]

    unfoldable pub switch_chains : World → Ref → ℕ → Run World
    switch_chains w new index = do
      top ← get_chain_node c w.chain.tree new
      (walker, first) ← descend_new (top.height + 1) w.chain.tree w.chain.height new []
      (main, v) ← descend_main (w.chain.height + 1) w top.height (main_ref w.chain)
      (u, to_apply) ← descend_both (main.level + 1) v main walker first
      r ← apply_all to_apply u
      ok (record r { chain = record (r.chain) { main_chain_index = index } })

    -- The comparison of pointers asks whether the new node is the one that was chosen.
    unfoldable pub maybe_switch_chains : World → Ref → ℕ → Run World
    maybe_switch_chains w new index = do
      main ← get_main_chain c w.chain
      top ← get_chain_node c w.chain.tree new
      keep ← chain_node_max p g main top
      elim (keep && not (same_ref (main_ref w.chain) new)) [
        | true ↦ ok w
        | false ↦ switch_chains w new index
      ]
