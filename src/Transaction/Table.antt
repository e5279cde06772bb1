-- ===== src/Transaction/Table.antt =====
-- generateTransactions of RBlockSim/src/Transaction.c: the table of all transactions.
use rblock_sim_reproducibili.Base.{
  ℕ, zero, suc, ◌+◌, ◌<◌, ◌≡◌, refl, ap, ◌∙◌, some, List, get_elem?, arith,
}
use rblock_sim_reproducibili.Platform.{Rng, Platform}
use rblock_sim_reproducibili.Config.{Constants}
use rblock_sim_reproducibili.Transaction.{Transaction, generate_transactions}

module _ (p : Platform) (c : Constants) where
  -- The entry of a table that starts at transaction `i`.
  pub record Entry (i k : ℕ) (ts : List Transaction) : Type 0 where
    pub entry : Transaction
    pub stored : get_elem? ts k ≡ some entry
    pub id : entry.id ≡ i + k
    pub timestamp :
        entry.timestamp
        ≡ p.mul (p.of_ℕ (i + k)) (p.div (p.of_ℕ c.txn_number) (p.of_ℕ c.termination_time))
    pub sender : entry.sender ≡ 0

  -- If the numbers that the generator draws are truncated to 0, every transaction of the table has
  -- the sender 0; the transactions are numbered in order, at equal distances in time.
  pub generate_transactions-Entry :
      (rounds i k : ℕ) (rng : Rng)
      → ((r : Rng) → p.truncate (p.random r).0 ≡ 0)
      → k < rounds
      → Entry i k (generate_transactions p c rounds i rng).0
  unfolding generate_transactions
  generate_transactions-Entry zero i k rng below h = absurd (omega arith)
  generate_transactions-Entry (suc rounds) i zero rng below h =
      let same : i ≡ i + 0 = omega arith in
      record {
        entry = _;
        stored = refl;
        id = same;
        timestamp =
            ap (λ m. p.mul (p.of_ℕ m) (p.div (p.of_ℕ c.txn_number) (p.of_ℕ c.termination_time)))
              same;
        sender = rw (below rng) (omega arith);
      }
  generate_transactions-Entry (suc rounds) i (suc k) rng below h =
      let e = generate_transactions-Entry rounds (i + 1) k (p.random rng).1 below (omega arith) in
      let same : i + 1 + k ≡ i + suc k = omega arith in
      record {
        entry = e.entry;
        stored = e.stored;
        id = e.id ∙ same;
        timestamp =
            e.timestamp
            ∙ ap (λ m. p.mul (p.of_ℕ m) (p.div (p.of_ℕ c.txn_number) (p.of_ℕ c.termination_time)))
                same;
        sender = e.sender;
      }
