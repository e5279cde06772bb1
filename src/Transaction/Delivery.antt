-- ===== src/Transaction/Delivery.antt =====
-- deliverNewTransactions of RBlockSim/src/Transaction.c: how the two bounds advance.
use rblock_sim_reproducibili.Base.{
  ℕ, zero, suc, ◌+◌, ◌-◌, ◌≤◌, ◌<◌, ◌≡◌, refl, true, false, inl, inr, Bool-cases, arith, ltb,
}
use rblock_sim_reproducibili.Platform.{Double, Bytes, Platform}
use rblock_sim_reproducibili.Config.{Constants}
use rblock_sim_reproducibili.Transaction.{
  Transaction, TransactionState, advance_low, advance_high, deliver_new_transactions,
}
use rblock_sim_reproducibili.Transaction.Blocks.{executed}
use rblock_sim_reproducibili.Transaction.Validity.{IsValid}

module _ (p : Platform) (c : Constants) (txns : ℕ → Transaction) where
  -- Where the first loop stops: at the first transaction from `low` on that is not executed.
  record LowStops (bitmap : Bytes) (low r : ℕ) : Type 0 where
    pub forward : low ≤ r
    pub skipped : (k : ℕ) → low ≤ k → k < r → p.bitmap_check bitmap k ≡ true
    pub stopped : r < c.txn_number → p.bitmap_check bitmap r ≡ false
    pub inside : low ≤ c.txn_number → r ≤ c.txn_number

  advance_low-LowStops :
      (rounds : ℕ) (bitmap : Bytes) (low : ℕ)
      → c.txn_number ≤ low + rounds
      → LowStops bitmap low (advance_low p c txns rounds bitmap low)
  unfolding advance_low
  advance_low-LowStops zero bitmap low h = record {
    forward = omega arith;
    skipped = λ k h1 h2. absurd (omega arith);
    stopped = λ h1. absurd (omega arith);
    inside = λ h1. h1;
  }
  advance_low-LowStops (suc rounds) bitmap low h =
      let rest = advance_low-LowStops rounds bitmap (low + 1) (omega arith) in
      record {
        forward = ground (arith, rest.forward);
        skipped = λ k h1 h2. ground (arith, rest.skipped k);
        stopped = λ h1. ground (arith, rest.stopped);
        inside = λ h1. ground (arith, rest.inside);
      }

  -- Where the second loop stops: at the first transaction that is still to be created.
  record HighStops (now : Double) (i r : ℕ) : Type 0 where
    pub forward : i ≤ r
    pub skipped : (k : ℕ) → i ≤ k → k < r → (txns k).timestamp ≤ now
    pub stopped : r < c.txn_number → now < (txns r).timestamp
    pub inside : i ≤ c.txn_number → r ≤ c.txn_number

  advance_high-HighStops :
      (rounds : ℕ) (now : Double) (i : ℕ)
      → c.txn_number ≤ i + rounds
      → HighStops now i (advance_high p c txns rounds now i)
  unfolding advance_high
  advance_high-HighStops zero now i h = record {
    forward = omega arith;
    skipped = λ k h1 h2. absurd (omega arith);
    stopped = λ h1. absurd (omega arith);
    inside = λ h1. h1;
  }
  advance_high-HighStops (suc rounds) now i h =
      let rest = advance_high-HighStops rounds now (i + 1) (omega arith) in
      record {
        forward = ground (arith, rest.forward);
        skipped = λ k h1 h2. ground (arith, rest.skipped k);
        stopped = λ h1. ground (arith, rest.stopped);
        inside = λ h1. ground (arith, rest.inside);
      }

  -- What a delivery leaves: the same executed transactions, `low` at the first one that is not
  -- executed, and `high` at the first one that is created later than `now`.
  pub record Delivered (s : TransactionState) (now : Double) (t : TransactionState) : Type 0 where
    pub kept : t.transactions_bitmap ≡ s.transactions_bitmap
    pub low_skips : (k : ℕ) → s.low ≤ k → k < t.low → executed p s k ≡ true
    pub low_stops : t.low < c.txn_number → executed p s t.low ≡ false
    pub high_skips : (k : ℕ) → s.high ≤ k → k < t.high → (txns k).timestamp ≤ now
    pub high_stops : t.high < c.txn_number → now < (txns t.high).timestamp
    pub forward : (s.low ≤ t.low) × (s.high ≤ t.high)

  -- A delivery always completes: it leaves the executed transactions alone, moves `low` up to the first
  -- transaction that is not executed and `high` up to the first one that is created later than `now`.
  pub deliver-Delivered :
      (s : TransactionState) (now : Double)
      → Delivered s now (deliver_new_transactions p c txns s now)
  unfolding deliver_new_transactions
  deliver-Delivered s now =
      let low =
        advance_low-LowStops (c.txn_number - s.low) s.transactions_bitmap s.low (omega arith) in
      let high = advance_high-HighStops (c.txn_number - s.high) now s.high (omega arith) in
      record {
        kept = refl;
        low_skips = low.skipped;
        low_stops = low.stopped;
        high_skips = high.skipped;
        high_stops = high.stopped;
        forward = (low.forward, high.forward);
      }

  -- A delivery keeps the invariant of the view.
  pub deliver-IsValid :
      (s : TransactionState) (now : Double)
      → IsValid p c s
      → IsValid p c (deliver_new_transactions p c txns s now)
  unfolding deliver_new_transactions
  deliver-IsValid s now v =
      let low =
        advance_low-LowStops (c.txn_number - s.low) s.transactions_bitmap s.low (omega arith) in
      let high = advance_high-HighStops (c.txn_number - s.high) now s.high (omega arith) in
      record {
        room = v.room;
        low_in = low.inside v.low_in;
        high_in = high.inside v.high_in;
        prefix = λ k h. elim (Bool-cases (ltb k s.low)) [
          | inl below ↦ v.prefix k (ground arith)
          | inr above ↦ low.skipped k (ground arith) h
        ];
      }
