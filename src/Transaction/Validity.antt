-- ===== src/Transaction/Validity.antt =====
-- The invariant of the view of the transactions, and reverting a block that was applied
-- (RBlockSim/src/Transaction.c).
use rblock_sim_reproducibili.Base.{ℕ, ◌≤◌, ◌<◌, ◌≡◌, true, false, arith}
use rblock_sim_reproducibili.Platform.{Platform, BitmapLaws, capacity}
use rblock_sim_reproducibili.Config.{Constants}
use rblock_sim_reproducibili.Transaction.{
  TransactionData, TransactionState, init_transaction_state, apply_block_transactions,
  revert_applied_block_transactions,
}
use rblock_sim_reproducibili.Transaction.Blocks.{
  includes, executed, apply_executes, revert_frees, length-apply_block, length-revert_block,
}

-- The bitmap has room for every transaction, both bounds stay within their number, and whatever
-- lies below `low` has been executed.
pub record IsValid (p : Platform) (c : Constants) (s : TransactionState) : Type 0 where
  pub room : c.txn_number ≤ capacity s.transactions_bitmap
  pub low_in : s.low ≤ c.txn_number
  pub high_in : s.high ≤ c.txn_number
  pub prefix : (k : ℕ) → k < s.low → executed p s k ≡ true

-- A block lists transactions of the simulation.
pub record IsListed (c : Constants) (d : TransactionData) : Type 0 where
  pub ordered : d.low ≤ d.high
  pub high_in : d.high ≤ c.txn_number

module _ (p : Platform) (laws : BitmapLaws p) (c : Constants) where
  -- The view that a node starts with meets the invariant.
  pub init-IsValid : IsValid p c (init_transaction_state p c)
  unfolding init_transaction_state
  init-IsValid = record {
    room = laws.capacity-initialize c.txn_number;
    low_in = omega arith;
    high_in = omega arith;
    prefix = λ k h. absurd (omega arith);
  }

  module _ (s : TransactionState) (d : TransactionData) (v : IsValid p c s) (w : IsListed c d) where
    fits : d.high ≤ capacity s.transactions_bitmap
    fits = omega (arith, v.room, w.high_in)

    -- Applying a block that lists transactions of the simulation keeps the invariant of the view.
    pub apply-IsValid : IsValid p c (apply_block_transactions p s d)
    unfolding apply_block_transactions
    apply-IsValid = record {
      room = omega (arith, v.room, length-apply_block p laws s d w.ordered fits);
      low_in = v.low_in;
      high_in = ground (arith, v.high_in, w.high_in);
      prefix = λ k h.
          ground (arith, v.prefix k, v.room, v.low_in, apply_executes p laws s d w.ordered fits k);
    }

    -- Reverting a block that lists transactions of the simulation keeps the invariant of the view: `low`
    -- moves back to the block, so that everything below it stays executed.
    pub revert-IsValid : IsValid p c (revert_applied_block_transactions p s d)
    unfolding revert_applied_block_transactions
    revert-IsValid = record {
      room = omega (arith, v.room, length-revert_block p laws s d w.ordered fits);
      low_in = ground (arith, v.low_in, w.ordered, w.high_in);
      high_in = v.high_in;
      prefix = λ k h.
          ground (arith, v.prefix k, v.room, v.low_in, revert_frees p laws s d w.ordered fits k);
    }

    -- On a view that meets the invariant, reverting a block of the simulation's transactions right
    -- after it was applied restores whether transaction `k` is executed, provided that `k`, if the
    -- block lists it, had not been executed before.
    pub revert-apply :
        (k : ℕ)
        → k < capacity s.transactions_bitmap
        → (includes p d k ≡ true → executed p s k ≡ false)
        → executed p (revert_applied_block_transactions p (apply_block_transactions p s d) d) k
          ≡ executed p s k
    revert-apply k h fresh =
        let t = apply_block_transactions p s d in
        let sized = length-apply_block p laws s d w.ordered fits in
        let grown : d.high ≤ capacity t.transactions_bitmap = omega (arith, fits, sized) in
        ground (
          arith,
          sized,
          (apply_executes p laws s d w.ordered fits k h).0,
          (revert_frees p laws t d w.ordered grown k (omega (arith, h, sized))).0,
        )
