-- ===== src/Node/Start/Ledger.antt =====
-- The state that LP_INIT of RBlockSim/src/RBlockSim.c sets up, against the specification of the main
-- chain.
use rblock_sim_reproducibili.Base.{ℕ, ◌+◌, ◌<◌, ◌≡◌, refl, sym, subst, Bool, true, false, [], some}
use rblock_sim_reproducibili.Run.{ok, ◌>>=◌}
use rblock_sim_reproducibili.Platform.{Double, Rng, Platform, BitmapLaws}
use rblock_sim_reproducibili.Config.{
  Constants, Globals, StatsType, stats_none, stats_detailed, stats_fifty_one, stats_selfish,
  is_attacker, u64,
}
use rblock_sim_reproducibili.Transaction.{init_transaction_state}
use rblock_sim_reproducibili.Transaction.Validity.{init-IsValid}
use rblock_sim_reproducibili.Statistics.{
  StatsState, init_detailed_statistics_state, init_fifty_one_statistics_state,
  init_selfish_statistics_state,
}
use rblock_sim_reproducibili.Chain.{
  Blockchain, genesis_ref, genesis_block, get_main_chain, init_blockchain,
}
use rblock_sim_reproducibili.Chain.Switch.Paths.{Branch, here}
use rblock_sim_reproducibili.Chain.Growth.Grown.{Steady}
use rblock_sim_reproducibili.Chain.Growth.First.{init_blockchain-IsSound}
use rblock_sim_reproducibili.Chain.Growth.Following.{Follows}
use rblock_sim_reproducibili.Chain.Growth.{BlockchainState}
use rblock_sim_reproducibili.Chain.Levels.{IsWindow}
use rblock_sim_reproducibili.Chain.Levels.Moves.{init_blockchain_starts}
use rblock_sim_reproducibili.Chain.Switch.Ledger.{Agrees, ledger_stats}
use rblock_sim_reproducibili.Mining.{
  normal_expanded, init_blockchain_state, attacker_init_blockchain_state,
}
use rblock_sim_reproducibili.Network.{init_message}
use rblock_sim_reproducibili.Node.{NodeState}
use rblock_sim_reproducibili.Node.Start.{init_node, init_chain, init_statistics, new_attacker}

module _ (p : Platform) (laws : BitmapLaws p) (c : Constants) (g : Globals) (me : ℕ) where
  -- A chain that is only the genesis block, with nothing executed and nothing counted, which the state
  -- follows.
  pub record Fresh (junk : StatsState) (b : BlockchainState) : Type 0 where
    pub window : IsWindow c b.world.chain.tree
    pub main : get_main_chain c b.world.chain ≡ ok (genesis_block p)
    pub mined : b.mined_by_me ≡ 0
    pub ledger :
        Agrees p laws c g me
          (init_transaction_state p c)
          (init_statistics g g.stats_type junk)
          []
          b.world
    pub follows :
        Follows p laws c g me
          (init_transaction_state p c)
          (init_statistics g g.stats_type junk)
          genesis_ref
          b.world

  init_statistics_ledger :
      (ty : StatsType) (junk : StatsState)
      → init_statistics g ty junk ≡ ledger_stats p g me ty (init_statistics g ty junk) []
  unfolding init_statistics init_detailed_statistics_state init_fifty_one_statistics_state
      init_selfish_statistics_state
  init_statistics_ledger stats_none junk = refl
  init_statistics_ledger stats_detailed junk = refl
  init_statistics_ledger stats_fifty_one junk = refl
  init_statistics_ledger stats_selfish junk = refl

  abbrev started : StatsState → Blockchain → ℕ → BlockchainState
  started junk chain hash_power = record {
    world = record {
      chain = chain;
      txn = some (init_transaction_state p c);
      stats = init_statistics g g.stats_type junk;
    };
    hash_power = hash_power;
    hash_power_portion = p.of_ℕ 0;
    mined_by_me = 0;
  }

  started-Fresh :
      (junk : StatsState) (chain : Blockchain) (hash_power : ℕ)
      → IsWindow c chain.tree
      → get_main_chain c chain ≡ ok (genesis_block p)
      → init_blockchain c p ≡ ok chain
      → 0 < c.depth_to_keep
      → Fresh junk (started junk chain hash_power)
  started-Fresh junk chain hash_power window main made positive =
      let (sound, rooted, place) = (init_blockchain-IsSound c p positive).holds chain made in
      let ledger : Agrees p laws c g me (init_transaction_state p c)
          (init_statistics g g.stats_type junk) [] (started junk chain hash_power).world =
        record {
          view = init_transaction_state p c;
          viewed = refl;
          valid = init-IsValid p laws c;
          marks = λ k h. refl;
          counted = init_statistics_ledger g.stats_type junk;
        } in
      record {
        window = window;
        main = main;
        mined = refl;
        ledger = ledger;
        follows = record {
          sound = sound;
          rooted = rooted;
          main = subst (Steady c chain.tree) (sym place) rooted.bottom;
          blocks = [];
          path = subst (λ r. Branch c chain.tree r genesis_ref []) (sym place) here;
          fits = tt;
          ledger = ledger;
        };
      }

  init_chain-Fresh :
      (attacker : Bool) (junk : StatsState) (rng : Rng)
      → 0 < c.depth_to_keep
      → (b : BlockchainState) × (next : Rng) × (power : ℕ) × (init_chain p c g attacker
            (init_statistics g g.stats_type junk)
            rng
          ≡ ok (b, next, power))
        × Fresh junk b
  unfolding init_chain init_blockchain_state attacker_init_blockchain_state
  init_chain-Fresh true junk rng kept =
      let (chain, made, window, main) = init_blockchain_starts c p kept in
      (
        started junk chain 0,
        rng,
        g.total_hash_power,
        rw (made, ◌>>=◌) refl,
        started-Fresh junk chain 0 window main made kept,
      )
  init_chain-Fresh false junk rng kept =
      let (chain, made, window, main) = init_blockchain_starts c p kept in
      let draw = normal_expanded p rng (p.of_ℕ 5000) (p.of_ℕ 1000) in
      (
        started junk chain (p.truncate draw.0),
        draw.1,
        u64 (g.total_hash_power + p.truncate draw.0),
        rw (made, ◌>>=◌) refl,
        started-Fresh junk chain (p.truncate draw.0) window main made kept,
      )

  -- Whatever the memory held, and for attackers and others alike, LP_INIT succeeds when at least one
  -- level is kept: the node starts with the genesis block as its main chain, with the empty ledger and a
  -- sound tree, and schedules its own start.
  pub init_node-Fresh :
      (now : Double) (junk : StatsState)
      → 0 < c.depth_to_keep
      → (s : NodeState) × (power : ℕ) × (init_node p c g me now junk
          ≡ ok (s, record { receiver = me; time = now; message = init_message }, power))
        × Fresh junk s.blockchain_state
        × (s.attacker ≡ new_attacker)
  unfolding init_node
  init_node-Fresh now junk kept =
      let (b, rng, power, made, fresh) =
        init_chain-Fresh (is_attacker p g me) junk (p.initialize_stream (c.rng_seed + me)) kept in
      (
        record { rng = rng; blockchain_state = b; attacker = new_attacker },
        power,
        rw (made, ◌>>=◌) refl,
        fresh,
        refl,
      )
