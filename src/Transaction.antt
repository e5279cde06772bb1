-- ===== src/Transaction.antt =====
-- RBlockSim/src/Transaction.c and Transaction.h: the view that a node has of the transactions, the
-- choice of transactions for a block, and the effect of a block on that view.
-- `low` and `high` are C `int`s that are never negative.
pub mod Blocks
pub mod Validity
pub mod Delivery
pub mod Choice
pub mod Table
use rblock_sim_reproducibili.Base.{
  ℕ, zero, suc, ◌+◌, ◌-◌, ◌*◌, ◌/◌, ◌%◌, Bool, not, ◌&&◌, ◌||◌, Option, none, some, List, [], ◌∷◌,
  ltb, leb, ◌==◌, if◌then◌else◌,
}
use rblock_sim_reproducibili.Platform.{Double, Bytes, Rng, Platform}
use rblock_sim_reproducibili.Config.{Constants, u32}

pub record Transaction : Type 0 where
  pub timestamp : Double
  pub size : ℕ
  pub fee : Double
  pub id : ℕ
  pub sender : ℕ

-- `included_transactions` and its extension are one buffer.
pub record TransactionData : Type 0 where
  pub low : ℕ
  pub high : ℕ
  pub included_transactions : Bytes

-- A set bit marks a transaction that the main chain has executed.
pub record TransactionState : Type 0 where
  pub transactions_bitmap : Bytes
  pub low : ℕ
  pub high : ℕ

-- `bitmap_required_size`, over blocks of eight bytes
abbrev pub bitmap_required_size : ℕ → ℕ
bitmap_required_size bits = (bits / 64 + (if bits % 64 == 0 then 0 else 1)) * 8

-- TXN_DATA_MIN_BITMAP_SIZE is the size of a bitmap of sixteen bits.
unfoldable pub sizeof_additional_transaction_data_buffer : ℕ → ℕ
sizeof_additional_transaction_data_buffer count =
    let min_size = bitmap_required_size 16 in
    if ltb min_size (bitmap_required_size count) then bitmap_required_size count - min_size else 0

-- `high` is the first transaction past those of the block.
unfoldable pub close_range : TransactionData → TransactionData
close_range d = if d.high == d.low then d else record d { high = d.high + 1 }

module _ (p : Platform) where
  unfoldable pub mark_transaction_executed : Bytes → ℕ → Bytes
  mark_transaction_executed bitmap id = p.bitmap_set bitmap id

  unfoldable pub mark_transaction_available : Bytes → ℕ → Bytes
  mark_transaction_available bitmap id = p.bitmap_reset bitmap id

  -- The loops of `applyBlockTransactions` and `revertAppliedBlockTransactions`.
  unfoldable pub apply_loop : TransactionData → ℕ → ℕ → Bytes → Bytes
  unfolding mark_transaction_executed
  apply_loop d zero i bitmap = bitmap
  apply_loop d (suc rounds) i bitmap = apply_loop d rounds (i + 1) (
      if p.bitmap_check d.included_transactions (i - d.low)
      then mark_transaction_executed bitmap i
      else bitmap)

  unfoldable pub revert_loop : TransactionData → ℕ → ℕ → Bytes → Bytes
  unfolding mark_transaction_available
  revert_loop d zero i bitmap = bitmap
  revert_loop d (suc rounds) i bitmap = revert_loop d rounds (i + 1) (
      if p.bitmap_check d.included_transactions (i - d.low)
      then mark_transaction_available bitmap i
      else bitmap)

  unfoldable pub apply_block_transactions : TransactionState → TransactionData → TransactionState
  unfolding apply_loop
  apply_block_transactions s d = record s {
    transactions_bitmap = apply_loop d (d.high - d.low) d.low s.transactions_bitmap;
    high = if ltb d.high s.high then s.high else d.high;
  }

  unfoldable pub revert_applied_block_transactions :
      TransactionState → TransactionData → TransactionState
  unfolding revert_loop
  revert_applied_block_transactions s d = record s {
    transactions_bitmap = revert_loop d (d.high - d.low) d.low s.transactions_bitmap;
    low = if ltb s.low d.low then s.low else d.low;
  }

  unfoldable pub alloc_transaction_data : ℕ → ℕ → ℕ → TransactionData
  alloc_transaction_data count low high = record {
    low = low;
    high = high;
    included_transactions = p.bitmap_initialize count;
  }

module _ (p : Platform) (c : Constants) where
  unfoldable pub init_transaction_state : TransactionState
  init_transaction_state = record {
    transactions_bitmap = p.bitmap_initialize c.txn_number;
    low = 0;
    high = 0;
  }

module _ (p : Platform) (c : Constants) (txns : ℕ → Transaction) where
  -- The first loop of `deliverNewTransactions`, on the rounds that its second test leaves.
  unfoldable pub advance_low : ℕ → Bytes → ℕ → ℕ
  advance_low zero bitmap low = low
  advance_low (suc rounds) bitmap low =
      let rest = advance_low rounds bitmap (low + 1) in
      if p.bitmap_check bitmap low && ltb low c.txn_number then rest else low

  -- Its second loop.
  unfoldable pub advance_high : ℕ → Double → ℕ → ℕ
  advance_high zero now i = i
  advance_high (suc rounds) now i =
      let rest = advance_high rounds now (i + 1) in
      if ltb i c.txn_number then (if ltb now (txns i).timestamp then i else rest) else i

  unfoldable pub deliver_new_transactions : TransactionState → Double → TransactionState
  unfolding advance_low advance_high
  deliver_new_transactions s now = record s {
    low = advance_low (c.txn_number - s.low) s.transactions_bitmap s.low;
    high = advance_high (c.txn_number - s.high) now s.high;
  }

  -- `delivery i me` is `getTransactionDeliveryTime`.
  module _ (delivery : ℕ → ℕ → Double) where
    -- The test of the loop of `generateTransactionData`.
    unfoldable pub is_eligible : TransactionState → Double → ℕ → ℕ → Bool
    is_eligible s now me i =
        not (p.bitmap_check s.transactions_bitmap i)
        && ((txns i).sender == me || ltb (delivery i me) now)

    -- The loop, on the transactions that are left.
    unfoldable pub select_loop :
        TransactionState → Double → ℕ → ℕ → ℕ → ℕ → TransactionData → TransactionData
    select_loop s now me zero i j d = d
    select_loop s now me (suc rounds) i j d = select_loop s now me rounds (i + 1) (j + 1) (
        if is_eligible s now me i
        then record d { high = i; included_transactions = p.bitmap_set d.included_transactions j }
        else d)

    -- The state that the call leaves, and the data, or `none` for NULL.
    unfoldable pub generate_transaction_data :
        TransactionState → Double → ℕ → TransactionState × Option TransactionData
    unfolding deliver_new_transactions select_loop close_range alloc_transaction_data
    generate_transaction_data s now me =
        let t = deliver_new_transactions s now in
        let room = t.high - t.low in
        if leb t.high t.low then (t, none) else (
          t,
          some (
              close_range
                (select_loop t now me room t.low 0 (alloc_transaction_data p room t.low t.low))),
        )

module _ (p : Platform) (c : Constants) where
  -- The loop of `generateTransactions` from transaction `i` on: the entries that it writes, in order. The
  -- cast to node_id_t applies to the random number alone.
  unfoldable pub generate_transactions : ℕ → ℕ → Rng → List Transaction × Rng
  generate_transactions zero i rng = ([], rng)
  generate_transactions (suc rounds) i rng =
      let draw = p.random rng in
      let increment = p.div (p.of_ℕ c.txn_number) (p.of_ℕ c.termination_time) in
      let rest = generate_transactions rounds (i + 1) draw.1 in
      (
        record {
          timestamp = p.mul (p.of_ℕ i) increment;
          size = i;
          fee = p.of_ℕ i;
          id = i;
          sender = u32 (p.truncate draw.0 * c.n_nodes);
        }
            ∷ rest.0,
        rest.1,
      )
