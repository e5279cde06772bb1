-- ===== src/Report.antt =====
-- The results of a simulation: LP_FINI and the end of main of RBlockSim/src/RBlockSim.c, with the
-- copies and the selfish rows of Statistics.c. A text is the list of its bytes.
pub mod Numbers
pub mod Rows
pub mod Fit
pub mod Reading
pub mod Finish
pub mod Dumps
pub mod Network
pub mod Files
use Prim.Native.Char.{code}
use Prim.Native.String.{String}
use rblock_sim_reproducibili.Base.{
  ℕ, zero, suc, ◌+◌, ◌-◌, ◌*◌, ◌/◌, ◌%◌, List, [], ◌∷◌, ◌++◌, length, set, ltb, Bool, true, false,
  if◌then◌else◌,
}
use rblock_sim_reproducibili.Run.{Run, ok, abort, fault, ◌>>=◌}
use rblock_sim_reproducibili.Config.{
  u64, StatsType, stats_none, stats_detailed, stats_fifty_one, stats_selfish,
}
use rblock_sim_reproducibili.Statistics.{
  StatsState, DetailedStatsState, FiftyOneStatsState, SelfishStatsState,
}
use rblock_sim_reproducibili.Node.{NodeState}

abbrev pub Text : Type 0
Text = List ℕ

abbrev pub bytes : String → Text
bytes String.[] = []
bytes (String.◌∷◌ c s) = code c ∷ bytes s

-- `take n`, the part of a text that `snprintf` has room for.
abbrev pub take : ℕ → Text → Text
take zero s = []
take (suc n) [] = []
take (suc n) (c ∷ s) = c ∷ take n s

abbrev pub drop_last : Text → Text
drop_last [] = []
drop_last (c ∷ []) = []
drop_last (c ∷ d ∷ s) = c ∷ drop_last (d ∷ s)

-- The conversion `%lu`: the digits of `n` in front of `rest`, with fuel for the digits.
unfoldable pub print_digits : ℕ → ℕ → Text → Text
print_digits zero n rest = rest
print_digits (suc f) n rest = elim (ltb n 10) [
  | true ↦ (48 + n % 10) ∷ rest
  | false ↦ print_digits f (n / 10) ((48 + n % 10) ∷ rest)
]

abbrev pub print_number : ℕ → Text → Text
print_number n rest = print_digits (suc n) n rest

-- The row `[%lu,%lu,%lu,%lu,%lu]`, in front of `rest`.
unfoldable pub selfish_row : SelfishStatsState → Text → Text
selfish_row s rest =
    b'['
    ∷ print_number s.attacker_blocks_in_main_chain (
        b','
        ∷ print_number s.total_blocks_in_main_chain (
            b','
            ∷ print_number s.total_blocks_mined (
                b','
                ∷ print_number s.own_blocks_in_main_chain
                    (b',' ∷ print_number s.switches_to_selfish_chain (b']' ∷ rest)))))

-- `snprintf` into a buffer of `size` bytes: the last byte is for the null byte, which overwrites the
-- end of a text of just that length.
abbrev pub snprintf : ℕ → Text → Text
snprintf size s = if ltb (length s) size then s else take (size - 1) s ++ 0 ∷ []

-- `sprintSelfishStats` exits when the text is longer than the buffer.
unfoldable pub sprint_selfish_stats : SelfishStatsState → ℕ → Run Text
unfolding selfish_row
sprint_selfish_stats s size =
    let row = selfish_row s [] in if ltb size (length row) then abort else ok (snprintf size row)

abbrev pub header_text : Text
header_text =
    bytes
      "[\"attackerBlocksInMainChain\",\"totalBlocksInMainChain\",\"totalBlocksMined\",\"ownBlocksInMainChain\",\"switchesToSelfishChain\"]"

-- `sprintf` at the end of a buffer of `size` bytes that holds `buffer`.
abbrev pub append_text : ℕ → Text → Text → Run Text
append_text size buffer s = if ltb (length buffer + length s) size then ok (buffer ++ s) else fault

-- `sprintSelfishStatsHeader`, which does not look at the room: what follows a header that does not
-- fit is written outside of the buffer.
abbrev pub sprint_selfish_stats_header : ℕ → Run Text
sprint_selfish_stats_header size = if ltb (length header_text) size then ok header_text else fault

-- The loop of `main` over the rows.
unfoldable pub report_rows : ℕ → List SelfishStatsState → Text → Run Text
unfolding sprint_selfish_stats
report_rows size [] buffer = ok buffer
report_rows size (s ∷ ss) buffer = do
  row ← sprint_selfish_stats s (size - 1 - length buffer)
  separated ← append_text size (buffer ++ row) (bytes ",\n")
  report_rows size ss separated

-- The text that `main` writes for the counters of selfish mining.
unfoldable pub selfish_report : ℕ → List SelfishStatsState → Run Text
unfolding report_rows
selfish_report lps stats = do
  let size = u64 (lps * 256 + 256)
  start ← append_text size [] (bytes "{\n\"header\":")
  header ← sprint_selfish_stats_header (size - 1 - length start)
  rows ← append_text size (start ++ header) (bytes ",\n\"data\": [\n")
  filled ← report_rows size stats rows
  append_text size (drop_last (drop_last filled)) (bytes "\n]\n}\n")

-- `copyReceivedStatisticsState`, `copyFiftyOneStatisticsState` and `copySelfishStatisticsState` copy
-- all of the state.
unfoldable pub copy_received_statistics_state :
    DetailedStatsState → DetailedStatsState → DetailedStatsState
copy_received_statistics_state dest src = record {
  block_stats = src.block_stats;
  block_stats_capacity = src.block_stats_capacity;
  mined_block_stats = src.mined_block_stats;
  mined_block_stats_capacity = src.mined_block_stats_capacity;
}

unfoldable pub copy_fifty_one_statistics_state :
    FiftyOneStatsState → FiftyOneStatsState → FiftyOneStatsState
copy_fifty_one_statistics_state dest src = src

unfoldable pub copy_selfish_statistics_state :
    SelfishStatsState → SelfishStatsState → SelfishStatsState
copy_selfish_statistics_state dest src = src

unfoldable pub copy_statistics_state : StatsType → StatsState → StatsState → StatsState
unfolding copy_received_statistics_state copy_fifty_one_statistics_state
    copy_selfish_statistics_state
copy_statistics_state stats_none dest src = dest
copy_statistics_state stats_detailed dest src = record dest {
  detailed_stats = copy_received_statistics_state dest.detailed_stats src.detailed_stats;
}
copy_statistics_state stats_fifty_one dest src = record dest {
  fifty_one_stats = copy_fifty_one_statistics_state dest.fifty_one_stats src.fifty_one_stats;
}
copy_statistics_state stats_selfish dest src = record dest {
  selfish_stats = copy_selfish_statistics_state dest.selfish_stats src.selfish_stats;
}

-- What the nodes share at the end: `tot_mined` and the array `selfishStats`.
pub record Results : Type 0 where
  pub tot_mined : ℕ
  pub selfish_stats : List SelfishStatsState

-- LP_FINI on what the nodes share. The array has an entry for each node.
unfoldable pub finish_node : StatsType → ℕ → NodeState → Results → Results
finish_node ty me s r = record {
  tot_mined = u64 (r.tot_mined + s.blockchain_state.mined_by_me);
  selfish_stats = elim ty [
    | stats_selfish ↦ set r.selfish_stats me s.blockchain_state.world.stats.selfish_stats
    | stats_none ↦ r.selfish_stats
    | stats_detailed ↦ r.selfish_stats
    | stats_fifty_one ↦ r.selfish_stats
  ];
}

-- LP_FINI of some nodes, one after the other.
unfoldable pub finish_all : StatsType → List (ℕ × NodeState) → Results → Results
unfolding finish_node
finish_all ty [] r = r
finish_all ty ((me, s) ∷ rest) r = finish_all ty rest (finish_node ty me s r)
