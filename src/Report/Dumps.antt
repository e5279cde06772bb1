-- ===== src/Report/Dumps.antt =====
-- The functions of RBlockSim/src/Statistics.c that write the statistics of one node to a file or to
-- the standard output: the text or the bytes that they write. A file can be opened.
pub mod Images
use rblock_sim_reproducibili.Base.{
  ℕ, zero, suc, ◌+◌, ◌-◌, ◌*◌, ◌/◌, ◌%◌, ◌^◌, ltb, if◌then◌else◌, List, [], ◌∷◌, ◌++◌, true, false,
  ◌==◌,
}
use rblock_sim_reproducibili.Platform.{Double}
use rblock_sim_reproducibili.Config.{
  StatsType, stats_none, stats_detailed, stats_fifty_one, stats_selfish,
}
use rblock_sim_reproducibili.Statistics.{
  BlockStat, MinedBlockStat, DetailedStatsState, FiftyOneStatsState, SelfishStatsState, StatsState,
}
use rblock_sim_reproducibili.Report.{Text, bytes, print_digits, print_number}

-- `dumpFiftyOneStats` and `printFiftyOneStats`
unfoldable pub dump_fifty_one_stats : FiftyOneStatsState → Text
unfolding print_digits
dump_fifty_one_stats s =
    bytes "{\n\"attackerBlocksInMainChain\":"
    ++ print_number s.attacker_blocks_in_main_chain (
        bytes ",\"totalBlocksInMainChain\":"
        ++ print_number s.total_blocks_in_main_chain (bytes "\n}\n"))

-- The two forms of the counters of selfish mining: `dumpSelfishStatsVerbose`, which is also what
-- `printSelfishStats` writes, and `dumpSelfishStats`.
unfoldable pub dump_selfish_stats_verbose : SelfishStatsState → Text
unfolding print_digits
dump_selfish_stats_verbose s =
    bytes "{\n\"attackerBlocksInMainChain\":"
    ++ print_number s.attacker_blocks_in_main_chain (
        bytes ",\"totalBlocksInMainChain\":"
        ++ print_number s.total_blocks_in_main_chain (
            bytes ",\"totalBlocksMined\":"
            ++ print_number s.total_blocks_mined (
                bytes ",\"ownBlocksInMainChain\":"
                ++ print_number s.own_blocks_in_main_chain (
                    bytes ",\"switchesToSelfishChain\":"
                    ++ print_number s.switches_to_selfish_chain (bytes "\n}\n")))))

unfoldable pub dump_selfish_stats : SelfishStatsState → Text
unfolding print_digits
dump_selfish_stats s =
    bytes "{\n\"ABMC\":"
    ++ print_number s.attacker_blocks_in_main_chain (
        bytes ",\"TBMC\":"
        ++ print_number s.total_blocks_in_main_chain (
            bytes ",\"TBM\":"
            ++ print_number s.total_blocks_mined (
                bytes ",\"OBIMC\":"
                ++ print_number s.own_blocks_in_main_chain (
                    bytes ",\"Sw\":" ++ print_number s.switches_to_selfish_chain (bytes "\n}\n")))))

-- The 8 bytes of a `size_t`, the lowest one first, in front of the rest of the file.
unfoldable pub word_bytes : ℕ → ℕ → Text → Text
word_bytes zero n rest = rest
word_bytes (suc k) n rest = (n % 256) ∷ word_bytes k (n / 256) rest

-- `dumpFiftyOneStatsBinary` and `dumpSelfishStatsBinary` write the struct as it stands in memory.
unfoldable pub dump_fifty_one_stats_binary : FiftyOneStatsState → Text
dump_fifty_one_stats_binary s =
    word_bytes 8 s.attacker_blocks_in_main_chain (word_bytes 8 s.total_blocks_in_main_chain [])

unfoldable pub dump_selfish_stats_binary : SelfishStatsState → Text
dump_selfish_stats_binary s = word_bytes 8 s.attacker_blocks_in_main_chain (
    word_bytes 8 s.total_blocks_in_main_chain (
      word_bytes 8 s.total_blocks_mined
        (word_bytes 8 s.own_blocks_in_main_chain (word_bytes 8 s.switches_to_selfish_chain []))))

-- The conversion `%d` of an unsigned number of 32 bits, as the signed number of the same bits.
unfoldable pub print_signed : ℕ → Text → Text
unfolding print_digits
print_signed n rest =
    if ltb n (2 ^ 31) then print_number n rest else bytes "-" ++ print_number (2 ^ 32 - n) rest

-- `show` is the conversion `%lf`.
module _ (show : Double → Text) where
  -- One entry of each array of `dumpDetailedStats`: `miner` is written by `%d`.
  unfoldable pub block_stat_text : BlockStat → Text
  unfolding print_digits print_signed
  block_stat_text b =
      bytes "{\"miner\":"
      ++ print_signed b.miner (
          bytes ",\"height\":"
          ++ print_number b.height
              (bytes ",\"receivedTime\":" ++ show b.received_time ++ bytes "}"))

  unfoldable pub mined_block_stat_text : MinedBlockStat → Text
  unfolding print_digits print_signed
  mined_block_stat_text b =
      bytes "{\"miner\":"
      ++ print_signed b.miner (
          bytes ",\"height\":"
          ++ print_number b.height (bytes ",\"minedTime\":" ++ show b.mined_time ++ bytes "}"))

  -- The two loops: a comma behind each entry but the last one.
  unfoldable pub block_stats_text : List BlockStat → Text
  unfolding block_stat_text
  block_stats_text [] = []
  block_stats_text (b ∷ []) = block_stat_text b ++ bytes "\n"
  block_stats_text (b ∷ d ∷ bs) = block_stat_text b ++ bytes ",\n" ++ block_stats_text (d ∷ bs)

  unfoldable pub mined_block_stats_text : List MinedBlockStat → Text
  unfolding mined_block_stat_text
  mined_block_stats_text [] = []
  mined_block_stats_text (b ∷ []) = mined_block_stat_text b ++ bytes "\n"
  mined_block_stats_text (b ∷ d ∷ bs) =
      mined_block_stat_text b ++ bytes ",\n" ++ mined_block_stats_text (d ∷ bs)

  -- `dumpDetailedStats` and `printDetailedStats`
  unfoldable pub dump_detailed_stats : DetailedStatsState → Text
  unfolding block_stats_text mined_block_stats_text
  dump_detailed_stats s =
      bytes "{\n\"blockStats\":[\n"
      ++ block_stats_text s.block_stats
      ++ bytes "],\n"
      ++ bytes "\"minedBlockStats\":[\n"
      ++ mined_block_stats_text s.mined_block_stats
      ++ bytes "]\n}\n"

  -- `dumpStats` and `printStats`: nothing is written when no statistics are kept.
  unfoldable pub dump_stats : StatsType → StatsState → Text
  unfolding dump_detailed_stats dump_fifty_one_stats dump_selfish_stats
  dump_stats stats_none s = []
  dump_stats stats_detailed s = dump_detailed_stats s.detailed_stats
  dump_stats stats_fifty_one s = dump_fifty_one_stats s.fifty_one_stats
  dump_stats stats_selfish s = dump_selfish_stats s.selfish_stats

  unfoldable pub print_stats : StatsType → StatsState → Text
  unfolding dump_detailed_stats dump_fifty_one_stats dump_selfish_stats_verbose
  print_stats stats_none s = []
  print_stats stats_detailed s = dump_detailed_stats s.detailed_stats
  print_stats stats_fifty_one s = dump_fifty_one_stats s.fifty_one_stats
  print_stats stats_selfish s = dump_selfish_stats_verbose s.selfish_stats
