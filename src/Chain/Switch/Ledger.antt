-- ===== src/Chain/Switch/Ledger.antt =====
-- The specification of what a node derives from its main chain: the executed transactions and the
-- counters of Statistics.c, as functions of the list of main blocks; with applyChainNode and
-- revertAppliedChainNode of RBlockSim/src/Block.c against it.
-- A list of blocks stands from the tip down to, and without, a block that stays: the base.
use rblock_sim_reproducibili.Base.{
  ℕ, suc, ◌+◌, ◌<◌, ◌≡◌, refl, Bool, true, false, ◌||◌, Option, none, some, List, [], ◌∷◌, length,
  arith, ◌==◌, if◌then◌else◌,
}
use rblock_sim_reproducibili.Run.{ok}
use rblock_sim_reproducibili.Platform.{Platform, BitmapLaws}
use rblock_sim_reproducibili.Config.{
  Constants, Globals, StatsType, stats_none, stats_detailed, stats_fifty_one, stats_selfish,
  is_attacker, u64,
}
use rblock_sim_reproducibili.Transaction.{
  TransactionData, TransactionState, apply_block_transactions, revert_applied_block_transactions,
}
use rblock_sim_reproducibili.Transaction.Blocks.{includes, executed, apply_executes, revert_frees}
use rblock_sim_reproducibili.Transaction.Validity.{IsValid, IsListed, apply-IsValid, revert-IsValid}
use rblock_sim_reproducibili.Statistics.{
  StatsState, stats_add_block_fifty_one, stats_remove_block_fifty_one, stats_add_block_selfish,
  stats_remove_block_selfish,
}
use rblock_sim_reproducibili.Chain.{ChainNode, dec64}
use rblock_sim_reproducibili.Chain.Switch.{
  World, add_block_stats, remove_block_stats, apply_chain_node, revert_applied_chain_node,
}

abbrev pub one_if : Bool → ℕ
one_if b = if b then 1 else 0

module _ (p : Platform) (g : Globals) (me : ℕ) where
  -- The blocks that the node mined, and those that an attacker mined.
  abbrev pub own_blocks : List ChainNode → ℕ
  own_blocks [] = 0
  own_blocks (n ∷ ns) = one_if (n.miner == me) + own_blocks ns

  abbrev pub attacker_blocks : List ChainNode → ℕ
  attacker_blocks [] = 0
  attacker_blocks (n ∷ ns) = one_if (is_attacker p g n.miner) + attacker_blocks ns

  abbrev pub data_lists : Option TransactionData → ℕ → Bool
  data_lists none k = false
  data_lists (some d) k = includes p d k

  -- Whether one of the blocks lists transaction `k`.
  abbrev pub listed : List ChainNode → ℕ → Bool
  listed [] k = false
  listed (n ∷ ns) k = data_lists n.transaction_data k || listed ns k

  -- The statistics of the main chain `ns`, over those of the base.
  abbrev pub ledger_stats : StatsType → StatsState → List ChainNode → StatsState
  ledger_stats stats_none z ns = z
  ledger_stats stats_detailed z ns = z
  ledger_stats stats_fifty_one z ns = record z {
    fifty_one_stats = record {
      attacker_blocks_in_main_chain =
          u64 (z.fifty_one_stats.attacker_blocks_in_main_chain + attacker_blocks ns);
      total_blocks_in_main_chain = u64 (z.fifty_one_stats.total_blocks_in_main_chain + length ns);
    };
  }
  ledger_stats stats_selfish z ns = record z {
    selfish_stats = record (z.selfish_stats) {
      attacker_blocks_in_main_chain =
          u64 (z.selfish_stats.attacker_blocks_in_main_chain + attacker_blocks ns);
      total_blocks_in_main_chain = u64 (z.selfish_stats.total_blocks_in_main_chain + length ns);
      own_blocks_in_main_chain = u64 (z.selfish_stats.own_blocks_in_main_chain + own_blocks ns);
    };
  }

  add-ledger_stats :
      (ty : StatsType) (z : StatsState) (n : ChainNode) (ns : List ChainNode)
      → g.stats_type ≡ ty
      → add_block_stats p g me ty (ledger_stats ty z ns) n.miner ≡ ok (ledger_stats ty z (n ∷ ns))
  unfolding add_block_stats stats_add_block_fifty_one stats_add_block_selfish
  add-ledger_stats stats_none z n ns e = refl
  add-ledger_stats stats_detailed z n ns e = refl
  add-ledger_stats stats_fifty_one z n ns e = ground arith
  add-ledger_stats stats_selfish z n ns e = ground arith

  remove-ledger_stats :
      (ty : StatsType) (z : StatsState) (n : ChainNode) (ns : List ChainNode)
      → g.stats_type ≡ ty
      → remove_block_stats p g me ty (ledger_stats ty z (n ∷ ns)) n.miner
        ≡ ok (ledger_stats ty z ns)
  unfolding remove_block_stats stats_remove_block_fifty_one stats_remove_block_selfish
  remove-ledger_stats stats_none z n ns e = refl
  remove-ledger_stats stats_detailed z n ns e = refl
  remove-ledger_stats stats_fifty_one z n ns e = ground arith
  remove-ledger_stats stats_selfish z n ns e = ground arith

  -- Both functions, from the results of their parts.
  apply-ok :
      (w : World) (n : ChainNode) (t : TransactionState) (d : TransactionData) (st : StatsState)
      → w.txn ≡ some t
      → n.transaction_data ≡ some d
      → add_block_stats p g me g.stats_type w.stats n.miner ≡ ok st
      → apply_chain_node p g me w n
        ≡ ok (record {
          chain = record (w.chain) { height = n.height };
          txn = some (apply_block_transactions p t d);
          stats = st;
        })
  unfolding apply_chain_node
  apply-ok w n t d st viewed holds counted = ground arith

  revert-ok :
      (w : World) (n : ChainNode) (t : TransactionState) (d : TransactionData) (st : StatsState)
      → w.txn ≡ some t
      → n.transaction_data ≡ some d
      → remove_block_stats p g me g.stats_type w.stats n.miner ≡ ok st
      → revert_applied_chain_node p g me w n
        ≡ ok (record {
          chain = record (w.chain) { height = dec64 n.height; main_chain_index = n.parent };
          txn = some (revert_applied_block_transactions p t d);
          stats = st;
        })
  unfolding revert_applied_chain_node
  revert-ok w n t d st viewed holds counted = ground arith

module _ (p : Platform) (laws : BitmapLaws p) (c : Constants) (g : Globals) (me : ℕ)
    (s : TransactionState) (z : StatsState) where
  -- A block that may be applied on top of `ns`: one level higher, with transactions of the
  -- simulation that neither the blocks below it nor the base have executed.
  pub record NodeFits (base : ℕ) (n : ChainNode) (ns : List ChainNode) : Type 0 where
    pub height : n.height ≡ suc (base + length ns)
    pub block : TransactionData
    pub holds : n.transaction_data ≡ some block
    pub real : IsListed c block
    pub fresh :
        (k : ℕ)
        → includes p block k ≡ true
        → (listed p g me ns k ≡ false) × (executed p s k ≡ false)

  abbrev pub ChainFits : ℕ → List ChainNode → Type 0
  ChainFits base [] = Unit {0}
  ChainFits base (n ∷ ns) = NodeFits base n ns × ChainFits base ns

  -- The node's state is the ledger of the main chain `ns` over the base with view `s` and statistics
  -- `z`.
  pub record Agrees (ns : List ChainNode) (w : World) : Type 0 where
    pub view : TransactionState
    pub viewed : w.txn ≡ some view
    pub valid : IsValid p c view
    pub marks :
        (k : ℕ) → k < c.txn_number → executed p view k ≡ (listed p g me ns k || executed p s k)
    pub counted : w.stats ≡ ledger_stats p g me g.stats_type z ns

  -- Applying a block that fits on top of the main chain succeeds, adds it to the ledger, and
  -- changes no more of the chain than its height.
  pub apply-Agrees :
      (base : ℕ) (n : ChainNode) (ns : List ChainNode) (w : World)
      → NodeFits base n ns
      → Agrees ns w
      → (v : World) × (apply_chain_node p g me w n ≡ ok v)
        × Agrees (n ∷ ns) v
        × (v.chain ≡ record (w.chain) { height = n.height })
  apply-Agrees base n ns w fits a =
      let added = add-ledger_stats p g me g.stats_type z n ns refl in
      (
        record {
          chain = record (w.chain) { height = n.height };
          txn = some (apply_block_transactions p a.view fits.block);
          stats = ledger_stats p g me g.stats_type z (n ∷ ns);
        },
        apply-ok p g me w n a.view fits.block _ a.viewed fits.holds (rw a.counted added),
        record {
          view = apply_block_transactions p a.view fits.block;
          viewed = refl;
          valid = apply-IsValid p laws c a.view fits.block a.valid fits.real;
          marks = λ k h. ground (
            arith,
            a.marks k h,
            fits.holds,
            (apply_executes p laws a.view fits.block fits.real.ordered
                (omega (arith, fits.real.high_in, a.valid.room)) k
                (omega (arith, h, a.valid.room))).0,
          );
          counted = refl;
        },
        refl,
      )

  -- Reverting the tip of the main chain succeeds, takes it off the ledger, and moves the height and
  -- the index of the chain to its parent.
  pub revert-Agrees :
      (base : ℕ) (n : ChainNode) (ns : List ChainNode) (w : World)
      → NodeFits base n ns
      → Agrees (n ∷ ns) w
      → (v : World) × (revert_applied_chain_node p g me w n ≡ ok v)
        × Agrees ns v
        × (v.chain ≡ record (w.chain) { height = dec64 n.height; main_chain_index = n.parent })
  revert-Agrees base n ns w fits a =
      let removed = remove-ledger_stats p g me g.stats_type z n ns refl in
      (
        record {
          chain = record (w.chain) { height = dec64 n.height; main_chain_index = n.parent };
          txn = some (revert_applied_block_transactions p a.view fits.block);
          stats = ledger_stats p g me g.stats_type z ns;
        },
        revert-ok p g me w n a.view fits.block _ a.viewed fits.holds (rw a.counted removed),
        record {
          view = revert_applied_block_transactions p a.view fits.block;
          viewed = refl;
          valid = revert-IsValid p laws c a.view fits.block a.valid fits.real;
          marks = λ k h. ground (
            arith,
            a.marks k h,
            fits.holds,
            fits.fresh k,
            (revert_frees p laws a.view fits.block fits.real.ordered
                (omega (arith, fits.real.high_in, a.valid.room)) k
                (omega (arith, h, a.valid.room))).0,
          );
          counted = refl;
        },
        refl,
      )
