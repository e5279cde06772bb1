-- ===== src/Tests/Messages.antt =====
-- Node.Messages on a small tree, in which a block waits for its parent.
use rblock_sim_reproducibili.Base.{ℕ, zero, suc, ◌≡◌, ◌⊎◌, ◌∷◌, [], refl, sym, ap, arith}
use rblock_sim_reproducibili.Run.{ok}
use rblock_sim_reproducibili.Chain.{
  ChainNode, get_chain_node, get_chain_level, check_height, set_orphan,
}
use rblock_sim_reproducibili.Chain.Growth.{populate_chain_node}
use rblock_sim_reproducibili.Chain.Growth.Attachment.{arrived}
use rblock_sim_reproducibili.Chain.Growth.Lookup.{StandsFor, IsMissing}
use rblock_sim_reproducibili.Network.{latency, get_region}
use rblock_sim_reproducibili.Node.{NodeState, quiet}
use rblock_sim_reproducibili.Node.Handlers.{handle_receive, handle_request}
use rblock_sim_reproducibili.Node.Messages.{
  Recognised, Sends, handle_receive_known, handle_request_answers,
}
use rblock_sim_reproducibili.Tests.Machine.{machine}
use rblock_sim_reproducibili.Tests.Networks.{topology}
use rblock_sim_reproducibili.Tests.Switching.{globals, one}
use rblock_sim_reproducibili.Tests.Transactions.{small, txns, delivery}
use rblock_sim_reproducibili.Tests.Runs.{node_started}
use rblock_sim_reproducibili.Tests.Trees.{second, start, seed, waiting_tree, waiting_tree-IsSound}

abbrev waits : NodeState
waits = record node_started {
  blockchain_state = record (node_started.blockchain_state) {
    world = record start { chain = record seed { tree = waiting_tree } };
  };
}

abbrev waiting : ChainNode
waiting = set_orphan (arrived second 25)

waiting-StandsFor : StandsFor small waiting_tree 3 2 (record { level = 2; index = 0 }) waiting
unfolding waiting_tree get_chain_node get_chain_level check_height set_orphan populate_chain_node
waiting-StandsFor = record { loads = refl; at_height = refl; by = refl }

-- The block arrives again, and its parent is asked for again.
handle_receive_known_example :
    Recognised machine small topology
      (1 ∷ 3 ∷ [])
      globals
      txns
      delivery
      2
      0
      40
      waits
      second
      20
      (handle_receive machine small topology (1 ∷ 3 ∷ []) globals txns delivery 2 0 40 waits second)
unfolding latency get_region
handle_receive_known_example =
    handle_receive_known machine small topology (1 ∷ 3 ∷ []) globals txns delivery 2 0 40 waits
      second (record { level = 2; index = 0 }) waiting 20 waiting_tree-IsSound.tree
      waiting-StandsFor refl

only_waiting :
    (level i : ℕ) (n : ChainNode)
    → level ≡ 2
    → get_chain_node small waiting_tree (record { level = level; index = i }) ≡ ok n
    → waiting ≡ n
unfolding waiting_tree get_chain_node get_chain_level check_height set_orphan
only_waiting level zero n at_two loads = ground (
  arith,
  ap (λ k. get_chain_node small waiting_tree (record { level = k; index = 0 })) at_two,
  loads,
)
only_waiting level (suc i) n at_two loads = absurd (
    ground (
      arith,
      ap (λ k. get_chain_node small waiting_tree (record { level = k; index = suc i })) at_two,
      loads,
    ))

-- Node 3 asks for that block.
handle_request_answers_example :
    Sends machine small topology
      (1 ∷ 3 ∷ [])
      globals
      txns
      delivery
      2
      0
      40
      waits
      3
      3
      2
      20
      (handle_request machine small topology (1 ∷ 3 ∷ []) globals txns delivery 2 0 40 waits 3 3 2)
    ⊎ ((handle_request machine small topology (1 ∷ 3 ∷ []) globals txns delivery 2 0 40 waits 3 3 2
          ≡ ok (quiet waits []))
        × IsMissing small waiting_tree 3 2)
unfolding latency get_region waiting_tree set_orphan populate_chain_node
handle_request_answers_example =
    handle_request_answers machine small topology (1 ∷ 3 ∷ []) globals txns delivery 2 0 40 waits 3
      3 2 20 waiting_tree-IsSound.tree (omega arith)
      (λ r n s. (
        one 1,
        sym (
            ap (λ (m : ChainNode). m.transaction_data)
              (only_waiting r.level r.index n s.at_height s.loads)),
      ))
      refl
