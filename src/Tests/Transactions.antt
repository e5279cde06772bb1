-- ===== src/Tests/Transactions.antt =====
-- The view of the transactions (Transaction) on small inputs.
use rblock_sim_reproducibili.Base.{ℕ, ◌+◌, ◌*◌, ◌≡◌, refl, true, false, some, [], ◌∷◌, arith}
use rblock_sim_reproducibili.Platform.{Double}
use rblock_sim_reproducibili.Config.{Constants}
use rblock_sim_reproducibili.Transaction.{
  Transaction, TransactionData, TransactionState, apply_block_transactions,
  revert_applied_block_transactions, deliver_new_transactions, generate_transaction_data,
  is_eligible,
}
use rblock_sim_reproducibili.Transaction.Blocks.{executed, includes}
use rblock_sim_reproducibili.Transaction.Validity.{
  IsValid, IsListed, apply-IsValid, revert-IsValid, revert-apply,
}
use rblock_sim_reproducibili.Transaction.Delivery.{deliver-IsValid}
use rblock_sim_reproducibili.Transaction.Choice.{Generated, generate-Generated, generate_lone}
use rblock_sim_reproducibili.Tests.Machine.{machine, machine-BitmapLaws}

-- Eight transactions, of which node 1 creates one every ten seconds.
abbrev pub small : Constants
small = record {
  txn_number = 8;
  depth_to_keep = 2;
  gossip_fanout = 1;
  n_nodes = 4;
  termination_time = 80;
  rng_seed = 1234;
}

abbrev pub txns : ℕ → Transaction
txns i = record { timestamp = 10 * i; size = 250; fee = 1; id = i; sender = 1 }

abbrev pub delivery : ℕ → ℕ → Double
delivery i me = 10 * i + 5

-- Transaction 0 is executed, and three are created.
abbrev pub view : TransactionState
view = record { transactions_bitmap = 1 ∷ []; low = 0; high = 3 }

-- Transactions 1 and 2.
abbrev pub block : TransactionData
block = record { low = 1; high = 3; included_transactions = 3 ∷ [] }

view-IsValid : IsValid machine small view
view-IsValid = record {
  room = omega arith;
  low_in = omega arith;
  high_in = omega arith;
  prefix = λ k h. absurd (omega arith);
}

block-IsListed : IsListed small block
block-IsListed = record { ordered = omega arith; high_in = omega arith }

apply-IsValid_example : IsValid machine small (apply_block_transactions machine view block)
apply-IsValid_example =
    apply-IsValid machine machine-BitmapLaws small view block view-IsValid block-IsListed

revert-IsValid_example :
    IsValid machine small (revert_applied_block_transactions machine view block)
revert-IsValid_example =
    revert-IsValid machine machine-BitmapLaws small view block view-IsValid block-IsListed

revert-apply_example :
    executed machine
      (revert_applied_block_transactions machine
        (apply_block_transactions machine view block)
        block)
      2
    ≡ false
revert-apply_example =
    revert-apply machine machine-BitmapLaws small view block view-IsValid block-IsListed 2
      (omega arith) (λ h. refl)

deliver-IsValid_example :
    IsValid machine small (deliver_new_transactions machine small txns view 45)
deliver-IsValid_example = deliver-IsValid machine small txns view 45 view-IsValid

generate-Generated_example :
    Generated machine machine-BitmapLaws small txns delivery view 45 0
      (generate_transaction_data machine small txns delivery view 45 0)
generate-Generated_example =
    generate-Generated machine machine-BitmapLaws small txns delivery view 45 0

-- At time 40 the miner 0 has seen transactions 1 to 3 delivered, and lists these.
generated_run : generate_transaction_data machine small txns delivery view 40 0 ≡ (
  record { transactions_bitmap = 1 ∷ []; low = 1; high = 5 },
  some (record { low = 1; high = 4; included_transactions = 7 ∷ 0 ∷ 0 ∷ 0 ∷ [] }),
)
unfolding generate_transaction_data deliver_new_transactions is_eligible
generated_run = refl

-- At time 7 only transaction 0 is created; it has been delivered to node 0.
abbrev lone_view : TransactionState
lone_view = record { transactions_bitmap = 0 ∷ []; low = 0; high = 0 }

lone_eligible : is_eligible machine small txns delivery lone_view 7 0 0 ≡ true
unfolding is_eligible
lone_eligible = refl

lone_delivered :
    deliver_new_transactions machine small txns lone_view 7
    ≡ record { transactions_bitmap = 0 ∷ []; low = 0; high = 1 }
unfolding deliver_new_transactions
lone_delivered = refl

lone_run :
    (generate_transaction_data machine small txns delivery lone_view 7 0).1
    ≡ some (record { low = 0; high = 0; included_transactions = 1 ∷ [] })
unfolding generate_transaction_data deliver_new_transactions is_eligible
lone_run = refl

generate_lone_example :
    includes machine (record { low = 0; high = 0; included_transactions = 1 ∷ [] }) 0 ≡ false
generate_lone_example =
    generate_lone machine machine-BitmapLaws small txns delivery lone_view 7 0 _ lone_run
      (λ m h1 h2. absurd (ground (arith, lone_delivered))) 0
