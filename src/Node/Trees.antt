-- ===== src/Node/Trees.antt =====
-- The cases of ProcessEvent of RBlockSim/src/RBlockSim.c on the tree of the node, and what a miner does to
-- conceal or to publish a block.
use rblock_sim_reproducibili.Base.{
  ℕ, ◌*◌, ◌^◌, ◌<◌, ◌≡◌, refl, sym, subst, some, none, Bool, true, false, not, ◌&&◌, arith, leb,
  if◌then◌else◌, List, [], ◌∷◌, Option,
}
use rblock_sim_reproducibili.Run.{
  ok, ◌>>=◌, Ensures, Ensures-ok, Ensures-bind, Ensures-then, Ensures-if,
}
use rblock_sim_reproducibili.Platform.{Double, Platform}
use rblock_sim_reproducibili.Config.{
  Constants, Globals, SelfishConfig, AttackConfig, attack_none, attack_selfish_mining,
  attack_fifty_one, is_attacker,
}
use rblock_sim_reproducibili.Transaction.{Transaction}
use rblock_sim_reproducibili.Chain.{
  Block, ChainNode, Ref, dec64, is_orphan, get_chain_node, find_chain_node,
}
use rblock_sim_reproducibili.Chain.ForkChoice.{chain_node_max}
use rblock_sim_reproducibili.Chain.Growth.{
  BlockchainState, retrieve_block, receive_block, generate_block,
}
use rblock_sim_reproducibili.Chain.Growth.Sound.{
  IsSound, receive_block-IsSound, generate_block-IsSound,
}
use rblock_sim_reproducibili.Mining.{
  after_init_blockchain_state, attacker_after_init_blockchain_state,
}
use rblock_sim_reproducibili.Network.{
  Event, Topology, Message, init_message, generate_block_message, receive_block_message,
  request_block_message, send_single_block, propagate_block,
}
use rblock_sim_reproducibili.Node.{
  NodeState, AttackerState, Outcome, quiet, chain_tree, then_schedule, publish, count_mined,
  count_received, count_switch, mine_selfishly, conceal_or_propagate, parent_lost, restart_attack,
  concealed_blocks, propagate_block_and_n_ancestors,
}
use rblock_sim_reproducibili.Node.Handlers.{
  handle_init, handle_generate, handle_receive, handle_request, handle, receive_known, receive_new,
  request_missing,
}

module _ (p : Platform) (c : Constants) (top : Topology) (regions : List ℕ) (g : Globals) where
  -- A step of a handler that leaves the tree alone.
  abbrev KeepsTree : NodeState → NodeState × List Event → Type 0
  KeepsTree s r = chain_tree r.0 ≡ chain_tree s

  conceal_or_propagate_tree :
      (f : ℕ) (cfg : SelfishConfig) (me : ℕ) (now : Double) (b : Block) (s : NodeState)
      (a : AttackerState)
      → Ensures (KeepsTree s) (conceal_or_propagate p c top regions g f cfg me now b s a)
  unfolding conceal_or_propagate
  conceal_or_propagate_tree f cfg me now b s a =
      Ensures-if
        (a.is_selfish_mining
          && leb cfg.depth (concealed_blocks s.blockchain_state.world.chain.height a))
        (λ deep.
          Ensures-then (count_switch p c top regions g g.stats_type s.blockchain_state.world.stats)
            (λ st.
              Ensures-then
                (propagate_block_and_n_ancestors p c top regions g f (chain_tree s) me now
                  (record b { is_attack_block = true })
                  (concealed_blocks s.blockchain_state.world.chain.height a) s.rng)
                (λ (es, next). Ensures-ok (KeepsTree s) _ refl)))
        (λ shallow. Ensures-ok (KeepsTree s) _ refl)

  mine_selfishly_tree :
      (f : ℕ) (cfg : SelfishConfig) (me : ℕ) (now : Double) (b : Block) (s : NodeState)
      → Ensures (KeepsTree s) (mine_selfishly p c top regions g f cfg me now b s)
  unfolding mine_selfishly
  mine_selfishly_tree f cfg me now b s =
      Ensures-then (find_chain_node c (chain_tree s) b.prev_block_miner (dec64 b.height)) (λ parent.
        Ensures-then
          (parent_lost p c top regions g (chain_tree s) me s.attacker.is_selfish_mining parent)
          (λ lost.
            conceal_or_propagate_tree f cfg me now b s
              (restart_attack cfg now b.height lost s.attacker)))

  publish_tree :
      (attack : AttackConfig) (f me : ℕ) (now : Double) (b : Block) (s : NodeState)
      → Ensures (KeepsTree s) (publish p c top regions g attack f me now b s)
  unfolding publish
  publish_tree attack_none f me now b s =
      Ensures-then (propagate_block p c top regions f me now b s.rng)
        (λ (es, next). Ensures-ok (KeepsTree s) _ refl)
  publish_tree (attack_fifty_one cfg) f me now b s =
      Ensures-then (propagate_block p c top regions f me now b s.rng)
        (λ (es, next). Ensures-ok (KeepsTree s) _ refl)
  publish_tree (attack_selfish_mining cfg) f me now b s =
      Ensures-if (is_attacker p g me && not s.attacker.finished_selfish_mining)
        (λ selfish. mine_selfishly_tree f cfg me now b s)
        (λ open'.
          Ensures-then (propagate_block p c top regions f me now b s.rng)
            (λ (es, next). Ensures-ok (KeepsTree s) _ refl))

  either-IsSound :
      (b : Bool) (x y : NodeState)
      → IsSound c (chain_tree x)
      → IsSound c (chain_tree y)
      → IsSound c (chain_tree (if b then x else y))
  either-IsSound true x y h k = h
  either-IsSound false x y h k = k

  abbrev SoundOutcome : Outcome → Type 0
  SoundOutcome o = IsSound c (chain_tree o.state)

  module _ (txns : ℕ → Transaction) (delivery : ℕ → ℕ → Double) (f me : ℕ) (now : Double)
      (small : 2 * c.depth_to_keep < 2 ^ 64)
      (prefers : (a b : ChainNode) → (first : Bool) × (chain_node_max p g a b ≡ ok first))
      (s : NodeState) (sound : IsSound c (chain_tree s)) where
    attacker_after_tree :
        (attack : AttackConfig)
        → Ensures
            (λ (b : BlockchainState). b.world.chain.tree ≡ chain_tree s)
            (attacker_after_init_blockchain_state p attack s.blockchain_state)
    unfolding attacker_after_init_blockchain_state
    attacker_after_tree attack_none = record { holds = λ b e. absurd (ground (arith, e)) }
    attacker_after_tree (attack_selfish_mining cfg) = Ensures-ok _ _ refl
    attacker_after_tree (attack_fifty_one cfg) = Ensures-ok _ _ refl

    handle_init-IsSound :
        Ensures SoundOutcome (handle_init p c top regions g txns delivery f me now s)
    unfolding handle_init then_schedule after_init_blockchain_state
    handle_init-IsSound =
        Ensures-bind
          (elim (is_attacker p g me) [
            | true ↦ attacker_after_init_blockchain_state p g.attack_config s.blockchain_state
            | false ↦ ok (after_init_blockchain_state p g s.blockchain_state)
          ])
          (Ensures-if (is_attacker p g me) (λ attacks. attacker_after_tree g.attack_config)
            (λ honest.
              Ensures-ok (λ (b : BlockchainState). b.world.chain.tree ≡ chain_tree s) _ refl))
          (λ b same. Ensures-ok SoundOutcome _ (subst (IsSound c) (sym same) sound))

    handle_generate-IsSound :
        Ensures SoundOutcome (handle_generate p c top regions g txns delivery f me now s)
    unfolding handle_generate then_schedule
    handle_generate-IsSound =
        Ensures-bind (generate_block p c g txns delivery me now s.blockchain_state)
          (generate_block-IsSound c p g txns delivery prefers me now s.blockchain_state small sound)
          (λ (b, mined) after.
            Ensures-bind
              (publish p c top regions g g.attack_config f me now b
                (record s { blockchain_state = mined }))
              (publish_tree g.attack_config f me now b (record s { blockchain_state = mined }))
              (λ (v, es) same.
                Ensures-then
                  (count_mined p c top regions g g.stats_type v.blockchain_state.world.stats me
                    b.height now)
                  (λ st. Ensures-ok SoundOutcome _ (subst (IsSound c) (sym same) after))))

    receive_known-IsSound :
        (b : Block) (r : Ref)
        → Ensures SoundOutcome (receive_known p c top regions g txns delivery f me now s b r)
    unfolding receive_known
    receive_known-IsSound b r = Ensures-then (get_chain_node c (chain_tree s) r) (λ n.
        Ensures-then
          (request_missing p c top regions g txns delivery f me now (is_orphan n) b s.rng)
          (λ (es, next). Ensures-ok SoundOutcome _ sound))

    receive_new-IsSound :
        (b : Block)
        → Ensures SoundOutcome (receive_new p c top regions g txns delivery f me now s b)
    unfolding receive_new then_schedule
    receive_new-IsSound b =
        Ensures-then
          (count_received p c top regions g g.stats_type s.blockchain_state.world.stats b now)
          (λ st.
            let w = record (s.blockchain_state.world) { stats = st } in
            Ensures-bind (receive_block c p g me now w b)
              (receive_block-IsSound c p g prefers me now w b small sound)
              (λ (v, updated, found) after.
                Ensures-then
                  (request_missing p c top regions g txns delivery f me now (not found) b s.rng)
                  (λ (requests, next).
                    Ensures-then
                      (propagate_block p c top regions f me now (record b { sender = me }) next)
                      (λ (es, last).
                        Ensures-if updated
                          (λ moved.
                            Ensures-then
                              (elim b.is_attack_block [
                                | true ↦ count_switch p c top regions g g.stats_type v.stats
                                | false ↦ ok v.stats
                              ])
                              (λ switched.
                                Ensures-ok SoundOutcome _
                                  (either-IsSound (is_attacker p g me) _ _ after after)))
                          (λ still. Ensures-ok SoundOutcome _ after)))))

    handle_receive-IsSound :
        (b : Block)
        → Ensures SoundOutcome (handle_receive p c top regions g txns delivery f me now s b)
    unfolding handle_receive
    handle_receive-IsSound b =
        Ensures-then (find_chain_node c (chain_tree s) b.miner b.height) (λ seeked. sought seeked b)
      where
        sought :
            (r : Option Ref) (b : Block)
            → Ensures SoundOutcome (elim r [
              | some r ↦ receive_known p c top regions g txns delivery f me now s b r
              | none ↦ receive_new p c top regions g txns delivery f me now s b
            ])
        sought none b = receive_new-IsSound b
        sought (some r) b = receive_known-IsSound b r

    handle_request-IsSound :
        (requester miner height : ℕ)
        → Ensures SoundOutcome
            (handle_request p c top regions g txns delivery f me now s requester miner height)
    unfolding handle_request
    handle_request-IsSound requester miner height =
        Ensures-then (retrieve_block c (chain_tree s) 0 miner height) (λ found. answered found)
      where
        answered :
            (found : Option Block)
            → Ensures SoundOutcome (elim found [
              | none ↦ ok (quiet s [])
              | some b ↦
                  send_single_block p c top regions me requester now
                    (record b { sender = me })
                    s.rng
                  >>= λ (e, next). ok (quiet (record s { rng = next }) (e ∷ []))
            ])
        answered none = Ensures-ok SoundOutcome _ sound
        answered (some b) =
            Ensures-then
              (send_single_block p c top regions me requester now (record b { sender = me }) s.rng)
              (λ (e, next). Ensures-ok SoundOutcome _ sound)

    pub handle-IsSound :
        (m : Message) → Ensures SoundOutcome (handle p c top regions g txns delivery f me now s m)
    unfolding handle
    handle-IsSound init_message = handle_init-IsSound
    handle-IsSound generate_block_message = handle_generate-IsSound
    handle-IsSound (receive_block_message b) = handle_receive-IsSound b
    handle-IsSound (request_block_message requester miner height) =
        handle_request-IsSound requester miner height
