-- ===== src/Lib.antt =====
-- RBlockSim simulates the nodes of a blockchain network, each one with its own tree of blocks,
-- its view of the transactions, its statistics and its peers. A node mines blocks on the tip of
-- its main chain, gossips them, receives the blocks of others, and moves its main chain to a
-- better branch; one node may be an attacker (51% or selfish mining). This library models
-- RBlockSim/src.
--
-- The files, and the code that they model:
--   Platform: what the code calls and does not implement, as the record Platform: the bitmaps of
--     RBlockSim/external/bitmap.h, with their documented behaviour in BitmapLaws, the generators
--     of ROOT-Sim_rng, and the arithmetic of doubles. A double stands as its place in the order
--     of the finite doubles, so that comparisons are comparisons of numbers.
--   Config: Config.h, Attacks.h and the shared variables. The macros are the record Constants.
--   Transaction: Transaction.c. `applyBlockTransactions` is apply_block_transactions, and so on;
--     the children hold what the operations do, the invariant of the view, the delivery of
--     transactions, the choice of transactions for a block, and the table of all transactions.
--   Statistics: the counters of Statistics.c, and how its arrays grow.
--   Chain: Block.h and the accessors of Block.c. A pointer to a ChainNode is a Ref, the height
--     of its level and its place there; reading and writing through it is get_chain_node and
--     put_chain_node. Chain/ForkChoice is chainNodeMax, Chain/Switch is switchChains with its
--     callees, Chain/Growth is addBlock, unorphanBlocks, generateBlock and receiveBlock;
--     Chain/Levels is about the window of heights that the two arrays of levels cover, and
--     Chain/Levels/Nodes about the nodes in them as a store. attach_block is addBlock up to the
--     call of maybeSwitchChains. The children of Chain/Growth: Tree (the shape of the tree),
--     Grown, Adoption, Rounds and Unorphaning (unorphanBlocks), Room (moveChainForward),
--     Placement, Waiting and Attachment (the new node and the orphans), Marks, First and Sound
--     (generateBlock, initBlockchain, and every operation), Rooted, Following and Ledgers (the
--     common ancestor of all branches, the ledger of the main chain, and the choice of it). Lookup
--     is findChainNode and retrieveBlock, which the messages of a node use (Node/Messages).
--   Attacks: the choice of the attackers in Attacks.c.
--   Network: the regions, the delays and the gossip of Network.c.
--   Mining: the hash power of a node and the time of its next block, of Block.c and util.c.
--   Node: Node.h and ProcessEvent of RBlockSim.c, with a handler for each of the four events of
--     a node (Node/Handlers), its start (Node/Start), and what it does with a block of its own,
--     a selfish attacker included. Node/Trees follows the tree of the node through the
--     handlers. NodeRun, in Node/Sound, is the states that a node goes through, with an event or
--     LP_INIT for each step.
--   Options: handle_options of RBlockSim.c and the start of main. A double is its place in the
--     order of the doubles; an option may also be a NaN, which has a place of its own (Platform).
--   Report: LP_FINI and the end of main, with the copies and the texts of Statistics.c: the rows
--     and the report (Report/Rows, Fit, Reading), the dumps of one node (Report/Dumps), the
--     names of the files (Report/Files), and the results that the nodes share (Report/Finish,
--     Network). A text is a list of bytes; `%lf` is a parameter.
--   Run: the outcome of a piece of code: a value, a call of abort or exit, a read outside of an
--     array or through NULL, or a loop that had no fuel left.
--   Tests: small inputs, and the theorems at these.
--
-- The parts meet in Chain/Switch: a switch of the main chain reverts and applies blocks, which
-- changes the view of the transactions and the counters. Chain/Switch/Ledger specifies both as
-- functions of the list of main blocks, Chain/Switch/Refinement is about switchChains, and
-- Chain/Growth/Ledgers about addBlock, which calls it.
--
-- Bounds and fuel: `size_t` and `uint32_t` counters wrap as written (u64, u32, increment,
-- decrement). The loops of switchChains have as much fuel as the height that they walk down, the
-- doubling of an array one more than its size, for it starts at one at least; the repeated draw
-- of a peer has fuel `f`, and IsFair says that, from the states that the generator comes through,
-- every peer turns up within `f` draws, as the full period of the generator promises. Sums that
-- stay far below the word size do not wrap in the model: the heights of the window, the tolerance
-- that the fork choice adds to a score, the indices of the choice of attackers below 2 ^ 32 nodes,
-- and the capacity of an array in memory. The window
-- of levels holds 2 * DEPTH_TO_KEEP heights; a block has to be less than 3 * DEPTH_TO_KEEP above
-- the lowest one, for addBlock moves the window once. unorphanBlocks has `max_height + 2`, for
-- its heights rise up to `max_height`.
--
-- Not modelled: ROOT-Sim_core (the event engine: the events that a call schedules are returned
-- in order), ROOT-Sim_rng and bitmap.h (parameters), Topology.c (data, the record Topology), the
-- messages to the standard output, the opening of files, the binary form of the arrays of the
-- detailed statistics (it holds the padding of their structs), the freeing functions, and what
-- failed allocations do.
pub mod Base
pub mod Run
pub mod Platform
pub mod Config
pub mod Transaction
pub mod Statistics
pub mod Chain
pub mod Attacks
pub mod Network
pub mod Mining
pub mod Node
pub mod Options
pub mod Report
pub mod Tests
