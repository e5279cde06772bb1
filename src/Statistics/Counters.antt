-- ===== src/Statistics/Counters.antt =====
-- The arrays of the detailed statistics of RBlockSim/src/Statistics.c.
use rblock_sim_reproducibili.Base.{
  ℕ, zero, suc, ◌+◌, ◌*◌, ◌<◌, ◌≡◌, refl, Bool-cases, inl, inr, [], ◌∷◌, ◌++◌, length, arith, leb,
}
use rblock_sim_reproducibili.Run.{ok, ◌>>=◌}
use rblock_sim_reproducibili.Platform.{Double}
use rblock_sim_reproducibili.Config.{Globals, stats_detailed}
use rblock_sim_reproducibili.Statistics.{
  StatsState, grow, stats_receive_block_detailed, stats_mine_block_detailed,
}

-- Doubling a positive capacity gets past the size before the fuel runs out.
grow_total :
    (f size room : ℕ)
    → size + 1 < f + room
    → 0 < f
    → 0 < room
    → (r : ℕ) × (grow f size room ≡ ok r) × (size < r)
unfolding grow
grow_total zero size room h fuel pos = absurd (omega arith)
grow_total (suc f) size room h fuel pos = elim (Bool-cases (leb room size)) [
  | inl small ↦
      rw (small, grow) (grow_total f size (room * 2) (ground arith) (ground arith) (omega arith))
  | inr large ↦ rw (large, grow) (room, refl, ground arith)
]

-- With detailed statistics and a positive capacity, recording a received block always succeeds: it
-- appends the entry at the end, leaves the array with a capacity above its old size, and touches
-- nothing else.
pub receive_appends :
    (g : Globals) (s : StatsState) (miner height : ℕ) (time : Double)
    → g.stats_type ≡ stats_detailed
    → 0 < s.detailed_stats.block_stats_capacity
    → (room : ℕ) × (length s.detailed_stats.block_stats < room)
      × (stats_receive_block_detailed g s miner height time
          ≡ ok (record s {
            detailed_stats = record (s.detailed_stats) {
              block_stats_capacity = room;
              block_stats =
                  s.detailed_stats.block_stats
                  ++ record { miner = miner; height = height; received_time = time } ∷ [];
            };
          }))
unfolding stats_receive_block_detailed
receive_appends g s miner height time e pos =
    let n = length s.detailed_stats.block_stats in
    let (room, grown, fits) =
      grow_total (n + 1) n s.detailed_stats.block_stats_capacity (omega arith) (omega arith) pos in
    (room, fits, rw (e, grown, ◌>>=◌))

-- With detailed statistics and a positive capacity, recording a mined block always succeeds: it
-- appends the entry at the end, leaves the array with a capacity above its old size, and touches
-- nothing else.
pub mine_appends :
    (g : Globals) (s : StatsState) (miner height : ℕ) (time : Double)
    → g.stats_type ≡ stats_detailed
    → 0 < s.detailed_stats.mined_block_stats_capacity
    → (room : ℕ) × (length s.detailed_stats.mined_block_stats < room)
      × (stats_mine_block_detailed g s miner height time
          ≡ ok (record s {
            detailed_stats = record (s.detailed_stats) {
              mined_block_stats_capacity = room;
              mined_block_stats =
                  s.detailed_stats.mined_block_stats
                  ++ record { miner = miner; height = height; mined_time = time } ∷ [];
            };
          }))
unfolding stats_mine_block_detailed
mine_appends g s miner height time e pos =
    let n = length s.detailed_stats.mined_block_stats in
    let (room, grown, fits) =
      grow_total (n + 1) n s.detailed_stats.mined_block_stats_capacity (omega arith) (omega arith)
        pos in
    (room, fits, rw (e, grown, ◌>>=◌))
