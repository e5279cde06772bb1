-- ===== src/Node/Messages.antt =====
-- RECEIVE_BLOCK on a block that the node holds already, and REQUEST_BLOCK (RBlockSim/src/RBlockSim.c).
use rblock_sim_reproducibili.Base.{
  ◌<◌, ◌⊎◌, ℕ, ◌≡◌, refl, Bool-cases, inl, inr, some, List, [], ◌∷◌, arith, if◌then◌else◌,
}
use rblock_sim_reproducibili.Run.{Run, ok, ◌>>=◌}
use rblock_sim_reproducibili.Platform.{Double, Rng, Platform}
use rblock_sim_reproducibili.Config.{Constants, Globals}
use rblock_sim_reproducibili.Transaction.{Transaction, TransactionData}
use rblock_sim_reproducibili.Chain.{Block, ChainNode, Ref, is_orphan, dec64}
use rblock_sim_reproducibili.Chain.Growth.Tree.{IsTree}
use rblock_sim_reproducibili.Chain.Growth.Lookup.{
  StandsFor, StandsFor-inside, IsMissing, Retrieved, find_chain_node_finds, retrieve_block_finds,
}
use rblock_sim_reproducibili.Network.{
  Event, Message, Topology, request_block_message, receive_block_message, latency, send_message,
  send_single_block,
}
use rblock_sim_reproducibili.Node.{NodeState, Outcome, quiet, chain_tree}
use rblock_sim_reproducibili.Node.Handlers.{handle_receive, handle_request}

module _ (p : Platform) (c : Constants) (top : Topology) (regions : List ℕ) (g : Globals)
    (txns : ℕ → Transaction) (delivery : ℕ → ℕ → Double) (f me : ℕ) (now : Double) where
  -- The message reaches its receiver after a delay with the mean `l`.
  abbrev pub delivery_of : ℕ → Message → Rng → Double → Event
  delivery_of receiver m rng l = record {
    receiver = receiver;
    time = p.add now (p.expent rng l).0;
    message = m;
  }

  send_message-ok :
      (receiver : ℕ) (m : Message) (rng : Rng) (l : Double)
      → latency p c top regions me receiver ≡ ok l
      → send_message p c top regions me receiver now m rng
        ≡ ok (delivery_of receiver m rng l, (p.expent rng l).1)
  unfolding send_message
  send_message-ok receiver m rng l h = ground (arith, h)

  -- What RECEIVE_BLOCK does with a block that the node `n` at `r` stands for.
  pub record Recognised (s : NodeState) (b : Block) (l : Double) (run : Run Outcome) : Type 0 where
    pub place : Ref
    pub node : ChainNode
    pub stands : StandsFor c (chain_tree s) b.miner b.height place node
    pub returns :
        run
        ≡ ok (
            if is_orphan node
            then quiet
                (record s { rng = (p.expent s.rng l).1 })
                (delivery_of b.sender
                    (request_block_message me b.prev_block_miner (dec64 b.height))
                    s.rng
                    l
                  ∷ [])
            else quiet s [])

  -- When a node with the miner of the block stands at its height, such a node is found, and the block
  -- changes nothing but the random numbers and is not passed on, nor is a new block scheduled. If
  -- the node that is found is still an orphan, the sender is asked once more for its parent, and
  -- otherwise nothing is sent. Assumes a tree of the shape that `addBlock` keeps, and that node and
  -- sender have regions.
  pub handle_receive_known :
      (s : NodeState) (b : Block) (q : Ref) (m : ChainNode) (l : Double)
      → IsTree c (chain_tree s)
      → StandsFor c (chain_tree s) b.miner b.height q m
      → latency p c top regions me b.sender ≡ ok l
      → Recognised s b l (handle_receive p c top regions g txns delivery f me now s b)
  unfolding handle_receive
  handle_receive_known s b q m l tree held connected =
      elim (find_chain_node_finds c (chain_tree s) b.miner b.height tree
        (StandsFor-inside c (chain_tree s) b.miner b.height tree q m held)) [
          | inr (missed, missing) ↦ absurd (missing q m held.loads held.at_height held.by)
          | inl (r, n, found, stands) ↦
              let asked =
                send_message-ok b.sender
                  (request_block_message me b.prev_block_miner (dec64 b.height)) s.rng l
                  connected in
              record {
                place = r;
                node = n;
                stands = stands;
                returns = elim (Bool-cases (is_orphan n)) [
                  | inl lone ↦
                      rw (found, ◌>>=◌)
                        (rw (stands.loads, ◌>>=◌) (rw lone (rw (asked, ◌>>=◌) refl)))
                  | inr placed ↦ rw (found, ◌>>=◌) (rw (stands.loads, ◌>>=◌) (rw placed refl))
                ];
              }
        ]

  -- What REQUEST_BLOCK sends: the block of a node that stands for the one that is asked for.
  pub record Sends (s : NodeState) (requester miner height : ℕ) (l : Double) (run : Run Outcome)
      : Type 0 where
    pub place : Ref
    pub node : ChainNode
    pub block : Block
    pub stands : StandsFor c (chain_tree s) miner height place node
    pub retrieved : Retrieved c (chain_tree s) miner height me node block
    pub returns :
        run
        ≡ ok (
            quiet
              (record s { rng = (p.expent s.rng l).1 })
              (delivery_of requester (receive_block_message block) s.rng l ∷ []))

  -- A request for a block above the lowest level is answered with the block of a node of that miner at
  -- that height, with the data and the timestamp of the node, the miner of its parent and this node as
  -- the sender, to the requester only, and with nothing exactly when the tree has no such node. It
  -- changes nothing but the random numbers, and schedules no block. Assumes a tree of the shape that
  -- `addBlock` keeps, that a node that stands for the block has its data, and that node and requester
  -- have regions.
  pub handle_request_answers :
      (s : NodeState) (requester miner height : ℕ) (l : Double)
      → IsTree c (chain_tree s)
      → (chain_tree s).min_height < height
      → ((r : Ref) (n : ChainNode)
          → StandsFor c (chain_tree s) miner height r n
          → (d : TransactionData) × (n.transaction_data ≡ some d))
      → latency p c top regions me requester ≡ ok l
      → Sends s requester miner height l
          (handle_request p c top regions g txns delivery f me now s requester miner height)
        ⊎ ((handle_request p c top regions g txns delivery f me now s requester miner height
              ≡ ok (quiet s []))
            × IsMissing c (chain_tree s) miner height)
  unfolding handle_request send_single_block
  handle_request_answers s requester miner height l tree low filled connected =
      elim (retrieve_block_finds c (chain_tree s) miner height 0 tree low filled) [
        | inr (none_found, missing) ↦ inr (rw (none_found, ◌>>=◌) refl, missing)
        | inl (r, n, b, found, stands, retrieved) ↦
            let sent =
              send_message-ok requester (receive_block_message (record b { sender = me })) s.rng l
                connected in
            inl (record {
              place = r;
              node = n;
              block = record b { sender = me };
              stands = stands;
              retrieved = record {
                by = retrieved.by;
                at_height = retrieved.at_height;
                dated = retrieved.dated;
                block_data = retrieved.block_data;
                sent_by = refl;
                honest = retrieved.honest;
                waits = retrieved.waits;
                follows = retrieved.follows;
              };
              returns = rw (found, ◌>>=◌) (rw (sent, ◌>>=◌) refl);
            })
      ]
