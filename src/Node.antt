-- ===== src/Node.antt =====
-- RBlockSim/src/RBlockSim.c and Node.h: the state of a node, and what it does with
-- a block of its own. What a call schedules is returned: the events in order, and the time of the node's next own block.
pub mod Handlers
pub mod Start
pub mod Messages
pub mod Selfish
pub mod Trees
pub mod Sound
use rblock_sim_reproducibili.Base.{
  ℕ, zero, suc, ◌+◌, ◌-◌, ◌*◌, ◌%◌, ◌^◌, Bool, true, false, not, ◌&&◌, ◌||◌, Option, none, some,
  List, [], ◌∷◌, ◌++◌, ltb, leb, ◌==◌, if◌then◌else◌,
}
use rblock_sim_reproducibili.Run.{Run, ok, abort, ◌>>=◌}
use rblock_sim_reproducibili.Platform.{Double, Rng, Platform}
use rblock_sim_reproducibili.Config.{
  Constants, Globals, SelfishConfig, AttackConfig, attack_none, attack_selfish_mining,
  attack_fifty_one, StatsType, stats_none, stats_detailed, stats_fifty_one, stats_selfish,
  is_attacker, u32, u64,
}
use rblock_sim_reproducibili.Transaction.{Transaction}
use rblock_sim_reproducibili.Statistics.{
  StatsState, same_type, stats_receive_block_detailed, stats_mine_block_detailed,
  stats_mine_block_selfish, stats_switch_to_selfish_chain,
}
use rblock_sim_reproducibili.Chain.{
  Block, BlockTree, Ref, is_orphan, dec64, get_chain_node, find_chain_node,
}
use rblock_sim_reproducibili.Chain.Switch.{World}
use rblock_sim_reproducibili.Chain.Growth.{
  BlockchainState, retrieve_block, receive_block, generate_block,
}
use rblock_sim_reproducibili.Mining.{
  after_init_blockchain_state, attacker_after_init_blockchain_state, schedule_next_block_generation,
}
use rblock_sim_reproducibili.Network.{
  Message, init_message, generate_block_message, receive_block_message, request_block_message,
  Event, Topology, send_message, send_single_block, propagate_block, delivery_time,
}

-- The fields that only an attacker has.
pub record AttackerState : Type 0 where
  pub last_propagated_height : ℕ
  pub failed_attacks : ℕ
  pub successful_conceals : ℕ
  pub is_selfish_mining : Bool
  pub finished_selfish_mining : Bool

-- `struct NodeState` and `struct AttackerNodeState`; the code reads the second part on attackers only.
pub record NodeState : Type 0 where
  pub rng : Rng
  pub blockchain_state : BlockchainState
  pub attacker : AttackerState

-- What handling an event leaves and schedules.
pub record Outcome : Type 0 where
  pub state : NodeState
  pub events : List Event
  pub next_block : Option Double

abbrev pub quiet : NodeState → List Event → Outcome
quiet s es = record { state = s; events = es; next_block = none }

abbrev pub chain_tree : NodeState → BlockTree
chain_tree s = s.blockchain_state.world.chain.tree

abbrev pub with_stats : NodeState → StatsState → NodeState
with_stats s st = record s {
  blockchain_state = record (s.blockchain_state) {
    world = record (s.blockchain_state.world) { stats = st };
  };
}

-- The two resets of the attacker, before it decides what to propagate.
unfoldable pub restart_attack : SelfishConfig → Double → ℕ → Bool → AttackerState → AttackerState
restart_attack cfg now height lost a =
    let reset : AttackerState =
      if lost
      then record a { is_selfish_mining = false; failed_attacks = u32 (a.failed_attacks + 1) }
      else a in
    if leb cfg.start_time now && not reset.is_selfish_mining
    then record reset { is_selfish_mining = true; last_propagated_height = dec64 height }
    else reset

-- The blocks that are concealed.
abbrev pub concealed_blocks : ℕ → AttackerState → ℕ
concealed_blocks height a = u64 (height + (2 ^ 64 - a.last_propagated_height))

module _ (p : Platform) (c : Constants) (top : Topology) (regions : List ℕ) (g : Globals) where
  unfoldable pub request_parent : ℕ → Double → Block → Rng → Run (Event × Rng)
  request_parent requester request_time b rng =
      send_message p c top regions requester b.sender request_time
        (request_block_message requester b.prev_block_miner (dec64 b.height)) rng

  -- The loop of `propagateBlockAndNAncestors`, from the `i`-th round on.
  unfoldable pub propagate_ancestors :
      ℕ → BlockTree → ℕ → Double → Block → ℕ → ℕ → ℕ → Rng → Run (List Event × Rng)
  propagate_ancestors f t sender send_time b n zero i rng =
      propagate_block p c top regions f sender send_time b rng
  propagate_ancestors f t sender send_time b n (suc rounds) i rng =
      retrieve_block c t 0 b.miner (u64 (b.height + (2 ^ 64 - n) + i)) >>= λ found. elim found [
        | none ↦ abort
        | some a ↦
            propagate_block p c top regions f sender send_time (record a { sender = sender }) rng
            >>= λ (es, next).
                propagate_ancestors f t sender (p.add send_time (p.decimal 2 3)) b n rounds (i + 1)
                  next
                >>= λ (fs, last). ok (es ++ fs, last)
      ]

  unfoldable pub propagate_block_and_n_ancestors :
      ℕ → BlockTree → ℕ → Double → Block → ℕ → Rng → Run (List Event × Rng)
  unfolding propagate_ancestors
  propagate_block_and_n_ancestors f t sender send_time b n rng =
      propagate_ancestors f t sender send_time b n (n - 1) 1 rng

  -- The statistics of a mined, of a received and of an attack block, for the type in use.
  unfoldable pub count_mined : StatsType → StatsState → ℕ → ℕ → Double → Run StatsState
  count_mined stats_none st me height now = ok st
  count_mined stats_detailed st me height now = stats_mine_block_detailed g st me height now
  count_mined stats_fifty_one st me height now = ok st
  count_mined stats_selfish st me height now = stats_mine_block_selfish g st

  unfoldable pub count_received : StatsType → StatsState → Block → Double → Run StatsState
  count_received stats_none st b now = ok st
  count_received stats_detailed st b now = stats_receive_block_detailed g st b.miner b.height now
  count_received stats_fifty_one st b now = ok st
  count_received stats_selfish st b now = ok st

  unfoldable pub count_switch : StatsType → StatsState → Run StatsState
  count_switch stats_none st = ok st
  count_switch stats_detailed st = ok st
  count_switch stats_fifty_one st = ok st
  count_switch stats_selfish st = stats_switch_to_selfish_chain g st

  -- Whether the parent of the new block is somebody else's, asked while selfish mining only.
  unfoldable pub parent_lost : BlockTree → ℕ → Bool → Option Ref → Run Bool
  parent_lost t me false parent = ok false
  parent_lost t me true none = ok false
  parent_lost t me true (some r) = get_chain_node c t r >>= λ n. ok (not (n.miner == me))

  -- Whether the concealed blocks are deep enough, and their propagation.
  unfoldable pub conceal_or_propagate :
      ℕ
      → SelfishConfig
      → ℕ
      → Double
      → Block
      → NodeState
      → AttackerState
      → Run (NodeState × List Event)
  unfolding count_switch propagate_block_and_n_ancestors
  conceal_or_propagate f cfg me now b s a =
      let n = concealed_blocks s.blockchain_state.world.chain.height a in
      elim (a.is_selfish_mining && leb cfg.depth n) [
        | false ↦ ok (record s { attacker = a }, [])
        | true ↦ count_switch g.stats_type s.blockchain_state.world.stats >>= λ st.
            propagate_block_and_n_ancestors f (chain_tree s) me now
              (record b { is_attack_block = true }) n s.rng
            >>= λ (es, next). ok (
              record (with_stats s st) {
                rng = next;
                attacker = record a {
                  successful_conceals = u32 (a.successful_conceals + 1);
                  last_propagated_height = b.height;
                  is_selfish_mining = false;
                };
              },
              es,
            )
      ]

  -- The selfish branch of GENERATE_BLOCK.
  unfoldable pub mine_selfishly :
      ℕ → SelfishConfig → ℕ → Double → Block → NodeState → Run (NodeState × List Event)
  unfolding parent_lost restart_attack conceal_or_propagate
  mine_selfishly f cfg me now b s =
      find_chain_node c (chain_tree s) b.prev_block_miner (dec64 b.height) >>= λ parent.
      parent_lost (chain_tree s) me s.attacker.is_selfish_mining parent >>= λ lost.
      conceal_or_propagate f cfg me now b s (restart_attack cfg now b.height lost s.attacker)

  -- The propagation of a new block.
  unfoldable pub publish :
      AttackConfig → ℕ → ℕ → Double → Block → NodeState → Run (NodeState × List Event)
  unfolding mine_selfishly
  publish attack f me now b s =
      let openly = propagate_block p c top regions f me now b s.rng >>= λ (es, next).
      ok (record s { rng = next }, es) in
      elim attack [
        | attack_none ↦ openly
        | attack_fifty_one cfg ↦ openly
        | attack_selfish_mining cfg ↦
            elim (is_attacker p g me && not s.attacker.finished_selfish_mining) [
              | true ↦ mine_selfishly f cfg me now b s
              | false ↦ openly
            ]
      ]

  -- The end of `ProcessEvent`, which a handler that returns early does not reach.
  unfoldable pub then_schedule : Double → NodeState → List Event → Outcome
  then_schedule now s es =
      let next = schedule_next_block_generation p g now s.rng s.blockchain_state in
      record { state = record s { rng = next.1 }; events = es; next_block = next.0 }
