-- ===== src/Transaction/Blocks.antt =====
-- The effect of a block on the view of the transactions: applyBlockTransactions and
-- revertAppliedBlockTransactions of RBlockSim/src/Transaction.c.
use rblock_sim_reproducibili.Base.{
  ℕ, zero, suc, ◌+◌, ◌-◌, ◌≤◌, ◌<◌, ◌≡◌, refl, ◌∙◌, Bool, true, false, ◌&&◌, length, arith, ltb,
  leb, if◌then◌else◌,
}
use rblock_sim_reproducibili.Platform.{Bytes, Platform, BitmapLaws, capacity}
use rblock_sim_reproducibili.Transaction.{
  TransactionData, TransactionState, apply_loop, revert_loop, apply_block_transactions,
  revert_applied_block_transactions,
}

module _ (p : Platform) where
  -- Whether transaction `k` is one of the block's.
  abbrev pub includes : TransactionData → ℕ → Bool
  includes d k = leb d.low k && ltb k d.high && p.bitmap_check d.included_transactions (k - d.low)

  -- Whether the node has seen transaction `k` executed.
  abbrev pub executed : TransactionState → ℕ → Bool
  executed s k = p.bitmap_check s.transactions_bitmap k

  abbrev in_rounds : TransactionData → ℕ → ℕ → ℕ → Bool
  in_rounds d rounds i k =
      leb i k && ltb k (i + rounds) && p.bitmap_check d.included_transactions (k - d.low)

module _ (p : Platform) (laws : BitmapLaws p) where
  length-apply_loop :
      (d : TransactionData) (rounds i : ℕ) (bitmap : Bytes)
      → length (apply_loop p d rounds i bitmap) ≡ length bitmap
  unfolding apply_loop
  length-apply_loop d zero i bitmap = refl
  length-apply_loop d (suc rounds) i bitmap =
      length-apply_loop d rounds (i + 1) _ ∙ ground (arith, laws.length-set bitmap i)

  length-revert_loop :
      (d : TransactionData) (rounds i : ℕ) (bitmap : Bytes)
      → length (revert_loop p d rounds i bitmap) ≡ length bitmap
  unfolding revert_loop
  length-revert_loop d zero i bitmap = refl
  length-revert_loop d (suc rounds) i bitmap =
      length-revert_loop d rounds (i + 1) _ ∙ ground (arith, laws.length-reset bitmap i)

  check-apply_loop :
      (d : TransactionData) (rounds i : ℕ) (bitmap : Bytes) (k : ℕ)
      → i + rounds ≤ capacity bitmap
      → k < capacity bitmap
      → p.bitmap_check (apply_loop p d rounds i bitmap) k
        ≡ (if in_rounds p d rounds i k then true else p.bitmap_check bitmap k)
  unfolding apply_loop
  check-apply_loop d zero i bitmap k room h = ground arith
  check-apply_loop d (suc rounds) i bitmap k room h = ground (
    arith,
    laws.length-set bitmap i,
    laws.check-set bitmap i k,
    check-apply_loop d rounds (i + 1) bitmap k,
    check-apply_loop d rounds (i + 1) (p.bitmap_set bitmap i) k,
  )

  check-revert_loop :
      (d : TransactionData) (rounds i : ℕ) (bitmap : Bytes) (k : ℕ)
      → i + rounds ≤ capacity bitmap
      → k < capacity bitmap
      → p.bitmap_check (revert_loop p d rounds i bitmap) k
        ≡ (if in_rounds p d rounds i k then false else p.bitmap_check bitmap k)
  unfolding revert_loop
  check-revert_loop d zero i bitmap k room h = ground arith
  check-revert_loop d (suc rounds) i bitmap k room h = ground (
    arith,
    laws.length-reset bitmap i,
    laws.check-reset bitmap i k,
    check-revert_loop d rounds (i + 1) bitmap k,
    check-revert_loop d rounds (i + 1) (p.bitmap_reset bitmap i) k,
  )

  module _ (s : TransactionState) (d : TransactionData) (ordered : d.low ≤ d.high)
      (room : d.high ≤ capacity s.transactions_bitmap) where
    pub length-apply_block :
        length (apply_block_transactions p s d).transactions_bitmap ≡ length s.transactions_bitmap
    unfolding apply_block_transactions
    length-apply_block = length-apply_loop d (d.high - d.low) d.low s.transactions_bitmap

    pub length-revert_block :
        length (revert_applied_block_transactions p s d).transactions_bitmap
        ≡ length s.transactions_bitmap
    unfolding revert_applied_block_transactions
    length-revert_block = length-revert_loop d (d.high - d.low) d.low s.transactions_bitmap

    -- After a block whose range the bitmap of the view has room for is applied, exactly its
    -- transactions have been executed on top of the earlier ones; `low` stays and `high` covers the
    -- block.
    pub apply_executes :
        (k : ℕ)
        → k < capacity s.transactions_bitmap
        → let t = apply_block_transactions p s d in
          (executed p t k ≡ (if includes p d k then true else executed p s k))
          × (t.low ≡ s.low)
          × (s.high ≤ t.high)
          × (d.high ≤ t.high)
    unfolding apply_block_transactions
    apply_executes k h =
        ground (arith, check-apply_loop d (d.high - d.low) d.low s.transactions_bitmap k)

    -- After a block whose range the bitmap of the view has room for is reverted, exactly its
    -- transactions are no longer executed; `high` stays and `low` goes back to the block at least.
    pub revert_frees :
        (k : ℕ)
        → k < capacity s.transactions_bitmap
        → let t = revert_applied_block_transactions p s d in
          (executed p t k ≡ (if includes p d k then false else executed p s k))
          × (t.low ≤ s.low)
          × (t.low ≤ d.low)
          × (t.high ≡ s.high)
    unfolding revert_applied_block_transactions
    revert_frees k h =
        ground (arith, check-revert_loop d (d.high - d.low) d.low s.transactions_bitmap k)
