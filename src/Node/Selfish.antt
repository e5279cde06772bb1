-- ===== src/Node/Selfish.antt =====
-- The selfish branch of GENERATE_BLOCK of RBlockSim/src/RBlockSim.c: how many blocks stay concealed.
use rblock_sim_reproducibili.Base.{ℕ, ◌<◌, ◌≡◌, true, List, [], arith}
use rblock_sim_reproducibili.Run.{bind_returned, ok, ◌>>=◌}
use rblock_sim_reproducibili.Platform.{Double, Platform}
use rblock_sim_reproducibili.Config.{Constants, Globals, SelfishConfig}
use rblock_sim_reproducibili.Chain.{Block, dec64, find_chain_node}
use rblock_sim_reproducibili.Network.{Event, Topology}
use rblock_sim_reproducibili.Node.{
  AttackerState, NodeState, chain_tree, concealed_blocks, restart_attack, parent_lost,
  mine_selfishly, conceal_or_propagate,
}

module _ (p : Platform) (c : Constants) (top : Topology) (regions : List ℕ) (g : Globals) where
  -- The attacker goes on mining selfishly: nothing is sent.
  abbrev pub Concealed : SelfishConfig → NodeState → NodeState → List Event → Type 0
  Concealed cfg s v es =
      (es ≡ [])
      × (v.blockchain_state ≡ s.blockchain_state)
      × (concealed_blocks v.blockchain_state.world.chain.height v.attacker < cfg.depth)

  conceal_or_propagate-Concealed :
      (f : ℕ) (cfg : SelfishConfig) (me : ℕ) (now : Double) (b : Block) (s v : NodeState)
      (es : List Event) (a : AttackerState)
      → conceal_or_propagate p c top regions g f cfg me now b s a ≡ ok (v, es)
      → v.attacker.is_selfish_mining ≡ true
      → Concealed cfg s v es
  unfolding conceal_or_propagate
  conceal_or_propagate-Concealed f cfg me now b s v es a h mining = ground (arith, h, mining)

  -- Whenever the attacker goes on mining selfishly after a block of its own, it has sent nothing, its
  -- chain is as it was, and it conceals fewer blocks than the depth of the attack.
  pub mine_selfishly_conceals :
      (f : ℕ) (cfg : SelfishConfig) (me : ℕ) (now : Double) (b : Block) (s v : NodeState)
      (es : List Event)
      → mine_selfishly p c top regions g f cfg me now b s ≡ ok (v, es)
      → v.attacker.is_selfish_mining ≡ true
      → Concealed cfg s v es
  unfolding mine_selfishly
  mine_selfishly_conceals f cfg me now b s v es h mining =
      let (parent, found, h1) =
        bind_returned (find_chain_node c (chain_tree s) b.prev_block_miner (dec64 b.height))
          (λ parent.
            parent_lost p c top regions g (chain_tree s) me s.attacker.is_selfish_mining parent
            >>= λ lost.
                conceal_or_propagate p c top regions g f cfg me now b s
                  (restart_attack cfg now b.height lost s.attacker))
          h in
      let (lost, asked, h2) =
        bind_returned
          (parent_lost p c top regions g (chain_tree s) me s.attacker.is_selfish_mining parent)
          (λ lost.
            conceal_or_propagate p c top regions g f cfg me now b s
              (restart_attack cfg now b.height lost s.attacker))
          h1 in
      conceal_or_propagate-Concealed f cfg me now b s v es
        (restart_attack cfg now b.height lost s.attacker) h2 mining
