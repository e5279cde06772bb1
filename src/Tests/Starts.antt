-- ===== src/Tests/Starts.antt =====
-- Node.Start on small inputs.
use rblock_sim_reproducibili.Base.{ℕ, ◌≡◌, arith}
use rblock_sim_reproducibili.Run.{ok}
use rblock_sim_reproducibili.Network.{init_message}
use rblock_sim_reproducibili.Node.{NodeState}
use rblock_sim_reproducibili.Node.Start.{init_node, new_attacker}
use rblock_sim_reproducibili.Node.Start.Ledger.{Fresh, init_node-Fresh}
use rblock_sim_reproducibili.Tests.Machine.{machine, machine-BitmapLaws}
use rblock_sim_reproducibili.Tests.Transactions.{small}
use rblock_sim_reproducibili.Tests.Switching.{globals, counted}

init_node-Fresh_example :
    (s : NodeState) × (power : ℕ) × (init_node machine small globals 0 0 (counted 7 9)
      ≡ ok (s, record { receiver = 0; time = 0; message = init_message }, power))
    × Fresh machine machine-BitmapLaws small globals 0 (counted 7 9) s.blockchain_state
    × (s.attacker ≡ new_attacker)
init_node-Fresh_example =
    init_node-Fresh machine machine-BitmapLaws small globals 0 0 (counted 7 9) (omega arith)
