-- ===== src/Mining.antt =====
-- The mining power of a node and the times of its blocks, of RBlockSim/src/Block.c and util.c:
-- initBlockchainState, afterInitBlockchainState and their versions for an attacker, and
-- scheduleNextBlockGeneration. `totalHashPower` is summed up by all nodes before it is read.
use rblock_sim_reproducibili.Base.{ℕ, ◌+◌, Option, none, some, leb, if◌then◌else◌}
use rblock_sim_reproducibili.Run.{Run, ok, abort, ◌>>=◌}
use rblock_sim_reproducibili.Platform.{Double, Rng, Platform}
use rblock_sim_reproducibili.Config.{
  Constants, Globals, AttackConfig, attack_none, attack_selfish_mining, attack_fifty_one, u64,
}
use rblock_sim_reproducibili.Transaction.{TransactionState}
use rblock_sim_reproducibili.Statistics.{StatsState}
use rblock_sim_reproducibili.Chain.{init_blockchain}
use rblock_sim_reproducibili.Chain.Growth.{BlockchainState}

module _ (p : Platform) where
  -- `NormalExpanded`
  unfoldable pub normal_expanded : Rng → Double → Double → Double × Rng
  normal_expanded rng mean std_dev =
      let draw = p.normal rng in (p.add (p.mul draw.0 std_dev) mean, draw.1)

  unfoldable pub get_next_gen_delay : Globals → Rng → Double → Double × Rng
  get_next_gen_delay g rng hash_power_portion =
      p.expent rng (p.div g.block_interval hash_power_portion)

  -- `initBlockchainState`, with the total hash power that it leaves.
  unfoldable pub init_blockchain_state :
      Constants
      → Globals
      → Option TransactionState
      → StatsState
      → Rng
      → Run (BlockchainState × Rng × ℕ)
  unfolding normal_expanded
  init_blockchain_state c g txn stats rng = do
    chain ← init_blockchain c p
    let draw = normal_expanded rng (p.of_ℕ 5000) (p.of_ℕ 1000)
    let hash_power = p.truncate draw.0
    ok (
      record {
        world = record { chain = chain; txn = txn; stats = stats };
        hash_power = hash_power;
        hash_power_portion = p.of_ℕ 0;
        mined_by_me = 0;
      },
      draw.1,
      u64 (g.total_hash_power + hash_power),
    )

  -- `attackerInitBlockchainState`, which leaves the hash power unset.
  unfoldable pub attacker_init_blockchain_state :
      Constants → Option TransactionState → StatsState → Run BlockchainState
  attacker_init_blockchain_state c txn stats = do
    chain ← init_blockchain c p
    ok (record {
      world = record { chain = chain; txn = txn; stats = stats };
      hash_power = 0;
      hash_power_portion = p.of_ℕ 0;
      mined_by_me = 0;
    })

  -- The portion of the hash power that the attack leaves to the others.
  unfoldable pub scale_portion : AttackConfig → Double → Double
  scale_portion attack_none x = x
  scale_portion (attack_selfish_mining s) x = p.mul x (p.sub (p.of_ℕ 1) s.hash_power_portion)
  scale_portion (attack_fifty_one s) x = p.mul x (p.sub (p.of_ℕ 1) s.hash_power_portion)

  unfoldable pub after_init_blockchain_state : Globals → BlockchainState → BlockchainState
  unfolding scale_portion
  after_init_blockchain_state g b = record b {
    hash_power_portion =
        scale_portion g.attack_config (p.div (p.of_ℕ b.hash_power) (p.of_ℕ g.total_hash_power));
  }

  unfoldable pub attacker_after_init_blockchain_state :
      AttackConfig → BlockchainState → Run BlockchainState
  attacker_after_init_blockchain_state attack_none b = abort
  attacker_after_init_blockchain_state (attack_selfish_mining s) b =
      ok (record b { hash_power_portion = s.hash_power_portion })
  attacker_after_init_blockchain_state (attack_fifty_one s) b =
      ok (record b { hash_power_portion = s.hash_power_portion })

  -- `scheduleNextBlockGeneration`: the time of the retractable event, or `none` when there is none.
  unfoldable pub schedule_next_block_generation :
      Globals → Double → Rng → BlockchainState → Option Double × Rng
  unfolding get_next_gen_delay
  schedule_next_block_generation g now rng b =
      let delay = get_next_gen_delay g rng b.hash_power_portion in
      if leb b.hash_power_portion (p.of_ℕ 0)
      then (none, rng)
      else (some (p.add now delay.0), delay.1)
