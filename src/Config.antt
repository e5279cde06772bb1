-- ===== src/Config.antt =====
-- RBlockSim/src/Config.h, Config.c, Topology.h and Attacks.h: the compile-time constants, the
-- configuration of the attack, and the variables that the whole program shares.
use rblock_sim_reproducibili.Base.{ℕ, ◌^◌, ◌-◌, ◌%◌, Bool}
use rblock_sim_reproducibili.Platform.{Double, Bytes, Platform}

-- The macros of Config.h and Topology.h, kept as parameters.
pub record Constants : Type 0 where
  pub txn_number : ℕ
  pub depth_to_keep : ℕ
  pub gossip_fanout : ℕ
  pub n_nodes : ℕ
  pub termination_time : ℕ
  pub rng_seed : ℕ

-- The values that the source gives them.
unfoldable pub source_constants : Constants
source_constants = record {
  txn_number = 500000;
  depth_to_keep = 200;
  gossip_fanout = 80;
  n_nodes = 1000;
  termination_time = 86400;
  rng_seed = 1234;
}

-- NODE_ID_MAX, the greatest `uint32_t`.
abbrev pub node_id_max : ℕ
node_id_max = 2 ^ 32 - 1

-- A value stored in a `uint32_t` and in a `size_t`.
abbrev pub u32 : ℕ → ℕ
u32 x = x % 2 ^ 32

abbrev pub u64 : ℕ → ℕ
u64 x = x % 2 ^ 64

pub record SelfishConfig : Type 0 where
  pub hash_power_portion : Double
  pub depth : ℕ
  pub catchup_tolerance : ℕ
  pub start_time : Double

pub record FiftyOneConfig : Type 0 where
  pub hash_power_portion : Double
  pub catchup_tolerance : ℕ

-- `struct attack_config`: the tag with the member of the union that it selects.
pub data AttackConfig : Type 0 where
  attack_none : AttackConfig
  attack_selfish_mining : SelfishConfig → AttackConfig
  attack_fifty_one : FiftyOneConfig → AttackConfig

pub data StatsType : Type 0 where
  stats_none stats_detailed stats_fifty_one stats_selfish : StatsType

-- The global variables that a node reads: `statsType`, `attackConfig`, the bitmap of attackers,
-- `currentNode`, `BLOCK_INTERVAL` and `totalHashPower`.
pub record Globals : Type 0 where
  pub stats_type : StatsType
  pub attack_config : AttackConfig
  pub is_attacker_bitmap : Bytes
  pub current_node : ℕ
  pub block_interval : Double
  pub total_hash_power : ℕ

-- `is_attacker`
unfoldable pub is_attacker : Platform → Globals → ℕ → Bool
is_attacker p g node = p.bitmap_check g.is_attacker_bitmap node
