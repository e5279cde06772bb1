-- ===== src/Statistics.antt =====
-- RBlockSim/src/Statistics.c and Statistics.h: the counters that a node keeps. The program reads
-- only the member of `struct StatsState` that `statsType` selects, so the members of the union are
-- kept side by side.
pub mod Counters
use rblock_sim_reproducibili.Base.{
  ℕ, zero, suc, ◌+◌, ◌-◌, ◌*◌, ◌^◌, Bool, true, false, not, List, [], ◌∷◌, ◌++◌, length, leb, ◌==◌,
  if◌then◌else◌,
}
use rblock_sim_reproducibili.Run.{Run, ok, abort, out_of_fuel, ◌>>=◌, ◌>>◌, abort_if}
use rblock_sim_reproducibili.Platform.{Double, Platform}
use rblock_sim_reproducibili.Config.{
  Globals, StatsType, stats_none, stats_detailed, stats_fifty_one, stats_selfish, is_attacker, u64,
}

pub record BlockStat : Type 0 where
  pub miner : ℕ
  pub height : ℕ
  pub received_time : Double

pub record MinedBlockStat : Type 0 where
  pub miner : ℕ
  pub height : ℕ
  pub mined_time : Double

-- The sizes of the arrays are the lengths of the lists.
pub record DetailedStatsState : Type 0 where
  pub block_stats : List BlockStat
  pub block_stats_capacity : ℕ
  pub mined_block_stats : List MinedBlockStat
  pub mined_block_stats_capacity : ℕ

pub record FiftyOneStatsState : Type 0 where
  pub attacker_blocks_in_main_chain : ℕ
  pub total_blocks_in_main_chain : ℕ

pub record SelfishStatsState : Type 0 where
  pub attacker_blocks_in_main_chain : ℕ
  pub total_blocks_in_main_chain : ℕ
  pub total_blocks_mined : ℕ
  pub own_blocks_in_main_chain : ℕ
  pub switches_to_selfish_chain : ℕ

pub record StatsState : Type 0 where
  pub detailed_stats : DetailedStatsState
  pub fifty_one_stats : FiftyOneStatsState
  pub selfish_stats : SelfishStatsState

abbrev pub same_type : StatsType → StatsType → Bool
same_type stats_none stats_none = true
same_type stats_detailed stats_detailed = true
same_type stats_fifty_one stats_fifty_one = true
same_type stats_selfish stats_selfish = true
same_type _ _ = false

-- `x++` and `x--` on a `size_t`.
abbrev pub increment : ℕ → ℕ
increment x = u64 (x + 1)

abbrev pub decrement : ℕ → ℕ
decrement x = u64 (x + (2 ^ 64 - 1))

abbrev pub empty_detailed : DetailedStatsState
empty_detailed = record {
  block_stats = [];
  block_stats_capacity = 1;
  mined_block_stats = [];
  mined_block_stats_capacity = 1;
}

-- The `init…StatisticsState` functions also set `statsType`.
unfoldable pub init_detailed_statistics_state : Globals → StatsState → Globals × StatsState
init_detailed_statistics_state g s =
    (record g { stats_type = stats_detailed }, record s { detailed_stats = empty_detailed })

unfoldable pub init_fifty_one_statistics_state : Globals → StatsState → Globals × StatsState
init_fifty_one_statistics_state g s = (
  record g { stats_type = stats_fifty_one },
  record s {
    fifty_one_stats = record { attacker_blocks_in_main_chain = 0; total_blocks_in_main_chain = 0 };
  },
)

unfoldable pub init_selfish_statistics_state : Globals → StatsState → Globals × StatsState
init_selfish_statistics_state g s = (
  record g { stats_type = stats_selfish },
  record s {
    selfish_stats = record {
      attacker_blocks_in_main_chain = 0;
      total_blocks_in_main_chain = 0;
      total_blocks_mined = 0;
      own_blocks_in_main_chain = 0;
      switches_to_selfish_chain = 0;
    };
  },
)

-- The `while` that doubles the capacity of an array until one more entry fits.
unfoldable pub grow : ℕ → ℕ → ℕ → Run ℕ
grow zero size cap = out_of_fuel
grow (suc f) size cap = elim (leb cap size) [ true ↦ grow f size (cap * 2) | false ↦ ok cap ]

unfoldable pub stats_receive_block_detailed : Globals → StatsState → ℕ → ℕ → Double → Run StatsState
unfolding grow
stats_receive_block_detailed g s miner height received_time = do
  abort_if (not (same_type g.stats_type stats_detailed))
  let d = s.detailed_stats
  cap ← grow (length d.block_stats + 1) (length d.block_stats) d.block_stats_capacity
  ok (record s {
    detailed_stats = record d {
      block_stats_capacity = cap;
      block_stats =
          d.block_stats
          ++ record { miner = miner; height = height; received_time = received_time } ∷ [];
    };
  })

unfoldable pub stats_mine_block_detailed : Globals → StatsState → ℕ → ℕ → Double → Run StatsState
unfolding grow
stats_mine_block_detailed g s miner height mined_time = do
  abort_if (not (same_type g.stats_type stats_detailed))
  let d = s.detailed_stats
  cap ←
      grow (length d.mined_block_stats + 1) (length d.mined_block_stats)
        d.mined_block_stats_capacity
  ok (record s {
    detailed_stats = record d {
      mined_block_stats_capacity = cap;
      mined_block_stats =
          d.mined_block_stats
          ++ record { miner = miner; height = height; mined_time = mined_time } ∷ [];
    };
  })

-- One more, or one fewer, when the test holds.
abbrev pub increment_if : Bool → ℕ → ℕ
increment_if b x = if b then increment x else x

abbrev pub decrement_if : Bool → ℕ → ℕ
decrement_if b x = if b then decrement x else x

module _ (p : Platform) (g : Globals) where
  unfoldable pub stats_add_block_fifty_one : StatsState → ℕ → ℕ → Run StatsState
  stats_add_block_fifty_one s miner me = do
    abort_if (not (same_type g.stats_type stats_fifty_one))
    let t = s.fifty_one_stats
    ok (record s {
      fifty_one_stats = record {
        total_blocks_in_main_chain = increment t.total_blocks_in_main_chain;
        attacker_blocks_in_main_chain =
            increment_if (is_attacker p g miner) t.attacker_blocks_in_main_chain;
      };
    })

  unfoldable pub stats_remove_block_fifty_one : StatsState → ℕ → ℕ → Run StatsState
  stats_remove_block_fifty_one s miner me = do
    abort_if (not (same_type g.stats_type stats_fifty_one))
    let t = s.fifty_one_stats
    ok (record s {
      fifty_one_stats = record {
        total_blocks_in_main_chain = decrement t.total_blocks_in_main_chain;
        attacker_blocks_in_main_chain =
            decrement_if (is_attacker p g miner) t.attacker_blocks_in_main_chain;
      };
    })

  unfoldable pub stats_add_block_selfish : StatsState → ℕ → ℕ → Run StatsState
  stats_add_block_selfish s miner me = do
    abort_if (not (same_type g.stats_type stats_selfish))
    let t = s.selfish_stats
    ok (record s {
      selfish_stats = record t {
        total_blocks_in_main_chain = increment t.total_blocks_in_main_chain;
        own_blocks_in_main_chain = increment_if (miner == me) t.own_blocks_in_main_chain;
        attacker_blocks_in_main_chain =
            increment_if (is_attacker p g miner) t.attacker_blocks_in_main_chain;
      };
    })

  unfoldable pub stats_remove_block_selfish : StatsState → ℕ → ℕ → Run StatsState
  stats_remove_block_selfish s miner me = do
    abort_if (not (same_type g.stats_type stats_selfish))
    let t = s.selfish_stats
    ok (record s {
      selfish_stats = record t {
        total_blocks_in_main_chain = decrement t.total_blocks_in_main_chain;
        own_blocks_in_main_chain = decrement_if (miner == me) t.own_blocks_in_main_chain;
        attacker_blocks_in_main_chain =
            decrement_if (is_attacker p g miner) t.attacker_blocks_in_main_chain;
      };
    })

unfoldable pub stats_mine_block_selfish : Globals → StatsState → Run StatsState
stats_mine_block_selfish g s = do
  abort_if (not (same_type g.stats_type stats_selfish))
  let t = s.selfish_stats
  ok (record s { selfish_stats = record t { total_blocks_mined = increment t.total_blocks_mined } })

unfoldable pub stats_switch_to_selfish_chain : Globals → StatsState → Run StatsState
stats_switch_to_selfish_chain g s = do
  abort_if (not (same_type g.stats_type stats_selfish))
  let t = s.selfish_stats
  ok (record s {
    selfish_stats = record t { switches_to_selfish_chain = increment t.switches_to_selfish_chain };
  })
