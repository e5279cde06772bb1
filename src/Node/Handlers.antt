-- ===== src/Node/Handlers.antt =====
-- ProcessEvent of RBlockSim/src/RBlockSim.c on the four events of a node.
use rblock_sim_reproducibili.Base.{
  ℕ, Bool, true, false, not, none, some, List, [], ◌∷◌, ◌++◌, ltb, if◌then◌else◌,
}
use rblock_sim_reproducibili.Run.{Run, ok, ◌>>=◌}
use rblock_sim_reproducibili.Platform.{Double, Rng, Platform}
use rblock_sim_reproducibili.Config.{Constants, Globals, is_attacker}
use rblock_sim_reproducibili.Transaction.{Transaction}
use rblock_sim_reproducibili.Chain.{Block, Ref, is_orphan, get_chain_node, find_chain_node}
use rblock_sim_reproducibili.Chain.Growth.{retrieve_block, receive_block, generate_block}
use rblock_sim_reproducibili.Mining.{
  after_init_blockchain_state, attacker_after_init_blockchain_state,
}
use rblock_sim_reproducibili.Network.{
  Message, init_message, generate_block_message, receive_block_message, request_block_message,
  Event, Topology, send_single_block, propagate_block, delivery_time,
}
use rblock_sim_reproducibili.Node.{
  NodeState, Outcome, quiet, chain_tree, with_stats, then_schedule, publish, count_mined,
  count_received, count_switch, request_parent,
}

module _ (p : Platform) (c : Constants) (top : Topology) (regions : List ℕ) (g : Globals) where
  module _ (txns : ℕ → Transaction) (delivery : ℕ → ℕ → Double) (f me : ℕ) (now : Double) where
    -- RBLOCKSIM_INIT
    unfoldable pub handle_init : NodeState → Run Outcome
    unfolding then_schedule
    handle_init s =
        elim (is_attacker p g me) [
          | true ↦ attacker_after_init_blockchain_state p g.attack_config s.blockchain_state
          | false ↦ ok (after_init_blockchain_state p g s.blockchain_state)
        ]
        >>= λ b. ok (then_schedule p c top regions g now (record s { blockchain_state = b }) [])

    -- GENERATE_BLOCK
    unfoldable pub handle_generate : NodeState → Run Outcome
    unfolding then_schedule publish count_mined
    handle_generate s =
        generate_block p c g txns delivery me now s.blockchain_state >>= λ (b, mined).
        publish p c top regions g g.attack_config f me now b (record s { blockchain_state = mined })
        >>= λ (v, es).
            count_mined p c top regions g g.stats_type v.blockchain_state.world.stats me b.height
              now
            >>= λ st. ok (then_schedule p c top regions g now (with_stats v st) es)

    -- The request for the parent, when it is missing.
    unfoldable pub request_missing : Bool → Block → Rng → Run (List Event × Rng)
    unfolding request_parent
    request_missing false b rng = ok ([], rng)
    request_missing true b rng =
        request_parent p c top regions g me now b rng >>= λ (e, next). ok (e ∷ [], next)

    -- RECEIVE_BLOCK of a block that the chain holds, at `r`.
    unfoldable pub receive_known : NodeState → Block → Ref → Run Outcome
    unfolding request_missing
    receive_known s b r = get_chain_node c (chain_tree s) r >>= λ n.
        request_missing (is_orphan n) b s.rng >>= λ (es, next).
        ok (quiet (record s { rng = next }) es)

    -- RECEIVE_BLOCK of a new block.
    unfoldable pub receive_new : NodeState → Block → Run Outcome
    unfolding request_missing count_received count_switch then_schedule
    receive_new s b =
        count_received p c top regions g g.stats_type s.blockchain_state.world.stats b now >>= λ st.
        receive_block c p g me now (record (s.blockchain_state.world) { stats = st }) b
        >>= λ (w, updated, found). request_missing (not found) b s.rng >>= λ (requests, next).
            propagate_block p c top regions f me now (record b { sender = me }) next
            >>= λ (es, last).
                let v : NodeState = record s {
                  rng = last;
                  blockchain_state = record (s.blockchain_state) { world = w };
                } in
                elim updated [
                  | false ↦ ok (quiet v (requests ++ es))
                  | true ↦
                      elim b.is_attack_block [
                        | true ↦ count_switch p c top regions g g.stats_type w.stats
                        | false ↦ ok w.stats
                      ]
                      >>= λ switched.
                          let u = with_stats v switched in
                          ok (
                            then_schedule p c top regions g now
                              (if is_attacker p g me
                                then record u {
                                  attacker = record (u.attacker) {
                                    last_propagated_height = b.height;
                                  };
                                }
                                else u)
                              (requests ++ es))
                ]

    unfoldable pub handle_receive : NodeState → Block → Run Outcome
    unfolding receive_known receive_new
    handle_receive s b = find_chain_node c (chain_tree s) b.miner b.height >>= λ seeked.
        elim seeked [ some r ↦ receive_known s b r | none ↦ receive_new s b ]

    -- REQUEST_BLOCK
    unfoldable pub handle_request : NodeState → ℕ → ℕ → ℕ → Run Outcome
    handle_request s requester miner height =
        retrieve_block c (chain_tree s) 0 miner height >>= λ found. elim found [
          | none ↦ ok (quiet s [])
          | some b ↦
              send_single_block p c top regions me requester now (record b { sender = me }) s.rng
              >>= λ (e, next). ok (quiet (record s { rng = next }) (e ∷ []))
        ]

    unfoldable pub handle : NodeState → Message → Run Outcome
    unfolding handle_init handle_generate handle_receive handle_request
    handle s init_message = handle_init s
    handle s generate_block_message = handle_generate s
    handle s (receive_block_message b) = handle_receive s b
    handle s (request_block_message requester miner height) =
        handle_request s requester miner height

-- `ProcessEvent` on the four events of `enum rblocksim_event`.
unfoldable pub process_event :
    (p : Platform) (c : Constants) (top : Topology) (regions : List ℕ) (g : Globals)
    (txns : ℕ → Transaction) (f me : ℕ) (now : Double)
    → NodeState
    → Message
    → Run Outcome
unfolding handle delivery_time
process_event p c top regions g txns f me now s m =
    if ltb (p.of_ℕ c.termination_time) now
    then ok (quiet s [])
    else handle p c top regions (record g { current_node = me }) txns
        (delivery_time p c top regions txns) f me now s m
