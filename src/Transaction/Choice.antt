-- ===== src/Transaction/Choice.antt =====
-- generateTransactionData of RBlockSim/src/Transaction.c: which transactions a miner puts in a block.
use rblock_sim_reproducibili.Base.{
  ℕ, zero, suc, ◌+◌, ◌-◌, ◌≤◌, ◌<◌, ◌≡◌, refl, Option, none, some, Bool, true, false, ◌⊎◌, inl, inr,
  Bool-cases, arith, ltb, leb, ◌&&◌, if◌then◌else◌, length,
}
use rblock_sim_reproducibili.Platform.{Double, Platform, BitmapLaws, capacity}
use rblock_sim_reproducibili.Config.{Constants}
use rblock_sim_reproducibili.Transaction.{
  Transaction, TransactionState, TransactionData, is_eligible, select_loop, close_range,
  alloc_transaction_data, deliver_new_transactions, generate_transaction_data,
}
use rblock_sim_reproducibili.Transaction.Blocks.{executed, includes}

module _ (p : Platform) (laws : BitmapLaws p) (c : Constants) (txns : ℕ → Transaction)
    (delivery : ℕ → ℕ → Double) (s : TransactionState) (now : Double) (me : ℕ) where
  -- Not executed yet, and either the miner's own or delivered to it before `now`.
  abbrev pub eligible : ℕ → Bool
  eligible = is_eligible p c txns delivery s now me

  -- What the loop over `[i, i + rounds)` makes of the data `d`, writing from bit `j` on.
  record Selects (rounds i j : ℕ) (d r : TransactionData) : Type 0 where
    pub low : r.low ≡ d.low
    pub sized : length r.included_transactions ≡ length d.included_transactions
    pub bits :
        (k : ℕ)
        → k < capacity d.included_transactions
        → p.bitmap_check r.included_transactions k ≡ (
            if leb j k && ltb k (j + rounds) && eligible (i + (k - j))
            then true
            else p.bitmap_check d.included_transactions k)
    pub last : (m : ℕ) → i ≤ m → m < i + rounds → eligible m ≡ true → m ≤ r.high
    pub source :
        (r.high ≡ d.high) ⊎ ((i ≤ r.high) × (r.high < i + rounds) × (eligible r.high ≡ true))

  Selects-skip :
      (rounds i j : ℕ) (d r : TransactionData)
      → d.high ≤ i
      → eligible i ≡ false
      → Selects rounds (i + 1) (j + 1) d r
      → Selects (suc rounds) i j d r
  Selects-skip rounds i j d r before skip rest = record {
    low = rest.low;
    sized = rest.sized;
    bits = λ k h. ground (arith, rest.bits k);
    last = λ m h1 h2 e. ground (arith, rest.last m);
    source = ground (arith, rest.source);
  }

  Selects-take :
      (rounds i j : ℕ) (d r : TransactionData)
      → j + suc rounds ≤ capacity d.included_transactions
      → d.high ≤ i
      → eligible i ≡ true
      → Selects rounds
          (i + 1)
          (j + 1)
          (record d { high = i; included_transactions = p.bitmap_set d.included_transactions j })
          r
      → Selects (suc rounds) i j d r
  Selects-take rounds i j d r room before take rest = record {
    low = rest.low;
    sized = omega (arith, rest.sized, laws.length-set d.included_transactions j);
    bits = λ k h. ground (
      arith,
      rest.bits k,
      laws.check-set d.included_transactions j k,
      laws.length-set d.included_transactions j,
    );
    last = λ m h1 h2 e. ground (arith, rest.last m);
    source = ground (arith, rest.source);
  }

  select_loop-Selects :
      (rounds i j : ℕ) (d : TransactionData)
      → j + rounds ≤ capacity d.included_transactions
      → d.high ≤ i
      → Selects rounds i j d (select_loop p c txns delivery s now me rounds i j d)
  unfolding select_loop
  select_loop-Selects zero i j d room before = record {
    low = refl;
    sized = refl;
    bits = λ k h. ground arith;
    last = λ m h1 h2 e. absurd (omega arith);
    source = inl refl;
  }
  select_loop-Selects (suc rounds) i j d room before = elim (Bool-cases (eligible i)) [
    | inl take ↦
        let taken : TransactionData = record d {
          high = i;
          included_transactions = p.bitmap_set d.included_transactions j;
        } in
        let sized = laws.length-set d.included_transactions j in
        rw take (
          Selects-take rounds i j d _ room before take
            (select_loop-Selects rounds (i + 1) (j + 1) taken (omega (arith, sized)) (omega arith)))
    | inr skip ↦ rw skip (
        Selects-skip rounds i j d _ before skip
          (select_loop-Selects rounds (i + 1) (j + 1) d (omega arith) (omega arith)))
  ]

  -- The data that the call allocates and fills, before its range is closed.
  filled : TransactionData
  unfolding alloc_transaction_data
  filled =
      select_loop p c txns delivery s now me (s.high - s.low) s.low 0
        (alloc_transaction_data p (s.high - s.low) s.low s.low)

  filled-Selects :
      Selects
        (s.high - s.low)
        s.low
        0
        (alloc_transaction_data p (s.high - s.low) s.low s.low)
        filled
  unfolding filled
  filled-Selects =
      select_loop-Selects (s.high - s.low) s.low 0
        (alloc_transaction_data p (s.high - s.low) s.low s.low)
        (omega (arith, laws.capacity-initialize (s.high - s.low))) (omega arith)

  -- What a block made from the delivered view `s` holds.
  pub record Chosen (d : TransactionData) : Type 0 where
    pub starts : d.low ≡ s.low
    pub ordered : d.low ≤ d.high
    pub inside : d.high ≤ s.high
    pub lists : (k : ℕ) → s.low < k → k < s.high → includes p d k ≡ eligible k
    pub first :
        (m : ℕ) → s.low < m → m < s.high → eligible m ≡ true → includes p d s.low ≡ eligible s.low
    pub fresh : (k : ℕ) → includes p d k ≡ true → executed p s k ≡ false

  filled-bits :
      (k : ℕ)
      → k < s.high - s.low
      → p.bitmap_check filled.included_transactions k ≡ eligible (s.low + k)
  unfolding alloc_transaction_data
  filled-bits k h = ground (
    arith,
    filled-Selects.bits k,
    laws.capacity-initialize (s.high - s.low),
    laws.check-initialize (s.high - s.low) k,
  )

  filled-low : filled.low ≡ s.low
  unfolding alloc_transaction_data
  filled-low = filled-Selects.low

  -- The greatest selected transaction, or the first one when there is none.
  filled-high :
      (filled.high ≡ s.low)
      ⊎ ((s.low ≤ filled.high) × (filled.high < s.high) × (eligible filled.high ≡ true))
  unfolding alloc_transaction_data
  filled-high = ground (arith, filled-Selects.source)

  filled-last : (m : ℕ) → s.low ≤ m → m < s.high → eligible m ≡ true → m ≤ filled.high
  filled-last m h1 h2 e = filled-Selects.last m h1 (omega arith) e

  eligible-executed : (k : ℕ) → eligible k ≡ true → executed p s k ≡ false
  unfolding is_eligible
  eligible-executed k e = ground arith

  filled-Chosen : s.low < s.high → Chosen (close_range filled)
  unfolding close_range
  filled-Chosen h = record {
    starts = ground (arith, filled-low);
    ordered = ground (arith, filled-low, filled-high);
    inside = ground (arith, filled-low, filled-high);
    lists =
        λ k h1 h2. ground (arith, filled-low, filled-high, filled-last k, filled-bits (k - s.low));
    first = λ m h1 h2 e. ground (arith, filled-low, filled-high, filled-last m, filled-bits 0);
    fresh = λ k e. ground (
      arith,
      filled-low,
      filled-high,
      filled-bits (k - s.low),
      eligible-executed (s.low + (k - s.low)),
    );
  }

  filled_lone :
      s.low < s.high
      → ((m : ℕ) → s.low < m → m < s.high → eligible m ≡ false)
      → (k : ℕ) → includes p (close_range filled) k ≡ false
  unfolding close_range
  filled_lone h lone k = ground (arith, filled-low, filled-high, lone filled.high)

module _ (p : Platform) (laws : BitmapLaws p) (c : Constants) (txns : ℕ → Transaction)
    (delivery : ℕ → ℕ → Double) (s : TransactionState) (now : Double) (me : ℕ) where
  abbrev pub delivered : TransactionState
  delivered = deliver_new_transactions p c txns s now

  -- What the call returns, NULL included.
  abbrev pub Generated : TransactionState × Option TransactionData → Type 0
  Generated (t, none) = (t ≡ delivered) × (t.high ≤ t.low)
  Generated (t, some d) =
      (t ≡ delivered) × (t.low < t.high) × Chosen p laws c txns delivery t now me d

  -- The call first delivers the new transactions. It returns NULL when the range of the view is then
  -- empty; otherwise the block lists, past the first transaction of the range, exactly the eligible
  -- ones, it lists the first one when it is eligible and another one is too, and it lists none that
  -- has been executed.
  pub generate-Generated : Generated (generate_transaction_data p c txns delivery s now me)
  unfolding generate_transaction_data filled
  generate-Generated = elim (Bool-cases (leb delivered.high delivered.low)) [
    | inl none_left ↦ rw none_left (refl, ground arith)
    | inr more ↦
        rw more
          (refl, ground arith, filled-Chosen p laws c txns delivery delivered now me (ground arith))
  ]

  -- When no transaction past the first one of the range is eligible, the block lists none at all,
  -- although the first one may be eligible.
  pub generate_lone :
      (d : TransactionData)
      → (generate_transaction_data p c txns delivery s now me).1 ≡ some d
      → ((m : ℕ)
          → delivered.low < m
          → m < delivered.high
          → is_eligible p c txns delivery delivered now me m ≡ false)
      → (k : ℕ) → includes p d k ≡ false
  unfolding generate_transaction_data filled
  generate_lone d e lone k = elim (Bool-cases (leb delivered.high delivered.low)) [
    | inl none_left ↦ cc (rw none_left at e)
    | inr more ↦ ground (
      arith,
      rw more at e,
      filled_lone p laws c txns delivery delivered now me (ground arith) lone k,
    )
  ]
