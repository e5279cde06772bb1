-- ===== src/Node/Sound.antt =====
-- ProcessEvent of RBlockSim/src/RBlockSim.c, whenever it returns, on the tree of the node: along any
-- sequence of events from LP_INIT on.
use rblock_sim_reproducibili.Base.{
  ℕ, ◌+◌, ◌*◌, ◌^◌, ◌<◌, ◌≡◌, Bool-cases, inl, inr, some, Bool, true, false, ltb, List,
}
use rblock_sim_reproducibili.Run.{ok, Ensures, Ensures-ok, Ensures-bind}
use rblock_sim_reproducibili.Platform.{Double, Rng, Platform}
use rblock_sim_reproducibili.Config.{Constants, Globals, is_attacker}
use rblock_sim_reproducibili.Transaction.{Transaction, init_transaction_state}
use rblock_sim_reproducibili.Statistics.{StatsState}
use rblock_sim_reproducibili.Chain.{ChainNode, init_blockchain}
use rblock_sim_reproducibili.Chain.ForkChoice.{chain_node_max, catchup_tolerance}
use rblock_sim_reproducibili.Chain.ForkChoice.Order.{chain_node_max_returns}
use rblock_sim_reproducibili.Chain.Growth.{BlockchainState}
use rblock_sim_reproducibili.Chain.Growth.Sound.{IsSound}
use rblock_sim_reproducibili.Chain.Growth.First.{init_blockchain-IsSound}
use rblock_sim_reproducibili.Mining.{init_blockchain_state, attacker_init_blockchain_state}
use rblock_sim_reproducibili.Network.{Event, Topology, Message, delivery_time}
use rblock_sim_reproducibili.Node.{NodeState, Outcome, chain_tree}
use rblock_sim_reproducibili.Node.Handlers.{process_event}
use rblock_sim_reproducibili.Node.Start.{init_node, init_chain, init_statistics}
use rblock_sim_reproducibili.Node.Trees.{handle-IsSound}

module _ (p : Platform) (c : Constants) (top : Topology) (regions : List ℕ) (g : Globals)
    (txns : ℕ → Transaction) (f me : ℕ) where
  -- The states that a node goes through: the one that LP_INIT leaves, over whatever its memory held,
  -- and the one that each event leaves, in any order, at any times and with any total hash power.
  pub data NodeRun : NodeState → Type 0 where
    started :
        (now : Double) (junk : StatsState) (power : ℕ) (s : NodeState) (e : Event) (left : ℕ)
        → init_node p c (record g { total_hash_power = power }) me now junk ≡ ok (s, e, left)
        → NodeRun s
    handled :
        (now : Double) (m : Message) (power : ℕ) (s : NodeState) (o : Outcome)
        → NodeRun s
        → process_event p c top regions (record g { total_hash_power = power }) txns f me now s m
          ≡ ok o
        → NodeRun o.state

  init_chain-IsSound :
      (attacks : Bool) (power : ℕ) (st : StatsState) (rng : Rng)
      → 0 < c.depth_to_keep
      → Ensures
          (λ (r : BlockchainState × Rng × ℕ). IsSound c r.0.world.chain.tree)
          (init_chain p c (record g { total_hash_power = power }) attacks st rng)
  unfolding init_chain init_blockchain_state attacker_init_blockchain_state
  init_chain-IsSound true power st rng positive =
      Ensures-bind (attacker_init_blockchain_state p c (some (init_transaction_state p c)) st)
        {rest = λ b. ok (b, rng, power)}
        (Ensures-bind (init_blockchain c p) (init_blockchain-IsSound c p positive)
          (λ chain (sound, rooted, main).
            Ensures-ok (λ (b : BlockchainState). IsSound c b.world.chain.tree) _ sound))
        (λ b sound.
          Ensures-ok (λ (r : BlockchainState × Rng × ℕ). IsSound c r.0.world.chain.tree) _ sound)
  init_chain-IsSound false power st rng positive =
      Ensures-bind (init_blockchain c p) (init_blockchain-IsSound c p positive)
        (λ chain (sound, rooted, main).
          Ensures-ok (λ (r : BlockchainState × Rng × ℕ). IsSound c r.0.world.chain.tree) _ sound)

  init_node-IsSound :
      (power : ℕ) (now : Double) (junk : StatsState)
      → 0 < c.depth_to_keep
      → Ensures
          (λ (r : NodeState × Event × ℕ). IsSound c (chain_tree r.0))
          (init_node p c (record g { total_hash_power = power }) me now junk)
  unfolding init_node
  init_node-IsSound power now junk positive =
      let g' : Globals = record g { total_hash_power = power } in
      Ensures-bind
        (init_chain p c g' (is_attacker p g' me) (init_statistics g' g'.stats_type junk)
          (p.initialize_stream (c.rng_seed + me)))
        (init_chain-IsSound (is_attacker p g' me) power (init_statistics g' g'.stats_type junk)
          (p.initialize_stream (c.rng_seed + me)) positive)
        (λ (b, rng, left) sound.
          Ensures-ok (λ (r : NodeState × Event × ℕ). IsSound c (chain_tree r.0)) _ sound)

  -- An event that the node handles while the simulation runs, or drops after its end.
  process_event-IsSound :
      (power : ℕ) (now : Double) (m : Message) (s : NodeState)
      → 2 * c.depth_to_keep < 2 ^ 64
      → ((a b : ChainNode)
          → (first : Bool) × (chain_node_max p
                (record g { total_hash_power = power; current_node = me })
                a
                b
              ≡ ok first))
      → IsSound c (chain_tree s)
      → Ensures
          (λ (o : Outcome). IsSound c (chain_tree o.state))
          (process_event p c top regions (record g { total_hash_power = power }) txns f me now s m)
  unfolding process_event
  process_event-IsSound power now m s small prefers sound =
      let g' : Globals = record g { total_hash_power = power; current_node = me } in
      elim (Bool-cases (ltb (p.of_ℕ c.termination_time) now)) [
        | inl over ↦ rw over (Ensures-ok (λ (o : Outcome). IsSound c (chain_tree o.state)) _ sound)
        | inr running ↦ rw running (
            handle-IsSound p c top regions g' txns (delivery_time p c top regions txns) f me now
              small prefers s sound m)
      ]

  -- Along every sequence of events from LP_INIT on, the tree of a node keeps its shape: each node of
  -- the tree stands at its height inside the window, and all but the orphans and the lowest level
  -- have a parent one level below that is no orphan and whose score is one less. No orphan waits for
  -- a node that `addBlock` would find. Assumes that at least one level is kept and fewer than 2 ^ 63,
  -- and that an attacker has an attack configured.
  pub NodeRun-IsSound :
      (tolerance : ℕ) (s : NodeState)
      → 0 < c.depth_to_keep
      → 2 * c.depth_to_keep < 2 ^ 64
      → (is_attacker p g me ≡ true → catchup_tolerance g.attack_config ≡ ok tolerance)
      → NodeRun s
      → IsSound c (chain_tree s)
  unfolding is_attacker
  NodeRun-IsSound tolerance s positive small configured
        (started now junk power s' e left returned) =
      (init_node-IsSound power now junk positive).holds (s, e, left) returned
  NodeRun-IsSound tolerance s positive small configured (handled now m power s' o before returned) =
      let g' : Globals = record g { total_hash_power = power; current_node = me } in
      (process_event-IsSound power now m s' small
          (chain_node_max_returns p g' tolerance (λ attacks. configured attacks))
          (NodeRun-IsSound tolerance s' positive small configured before)).holds
        o returned
