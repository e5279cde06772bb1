-- ===== src/Tests/Reports.antt =====
-- Report on small inputs.
use mathlib.Core.List.{Permᴰ}
use rblock_sim_reproducibili.Base.{ℕ, ◌*◌, ◌≡◌, refl, [], ◌∷◌, ◌++◌, arith}
use rblock_sim_reproducibili.Run.{ok}
use rblock_sim_reproducibili.Config.{stats_selfish}
use rblock_sim_reproducibili.Statistics.{SelfishStatsState}
use rblock_sim_reproducibili.Node.{NodeState}
use rblock_sim_reproducibili.Report.{
  Text, Results, bytes, print_digits, selfish_row, sprint_selfish_stats, selfish_report, finish_all,
}
use rblock_sim_reproducibili.Report.Dumps.{dump_selfish_stats_binary}
use rblock_sim_reproducibili.Report.Dumps.Images.{
  load_selfish_stats, load-dump_selfish_stats_binary,
}
use rblock_sim_reproducibili.Report.Fit.{AllWide}
use rblock_sim_reproducibili.Report.Network.{Reported, report_counters}
use rblock_sim_reproducibili.Report.Finish.{finish_all_any_order}
use rblock_sim_reproducibili.Report.Reading.{read_report, selfish_report-read_report}
use rblock_sim_reproducibili.Tests.Runs.{node_started}

abbrev counters : ℕ → ℕ → SelfishStatsState
counters total own = record {
  attacker_blocks_in_main_chain = 0;
  total_blocks_in_main_chain = total;
  total_blocks_mined = 2 * own;
  own_blocks_in_main_chain = own;
  switches_to_selfish_chain = 1;
}

row_run : selfish_row (counters 120 7) [] ≡ bytes "[0,120,14,7,1]"
unfolding selfish_row print_digits
row_run = refl

-- A row of just the length of the buffer loses its last byte.
truncated_run : sprint_selfish_stats (counters 120 7) 14 ≡ ok (bytes "[0,120,14,7,1" ++ 0 ∷ [])
unfolding sprint_selfish_stats selfish_row print_digits
truncated_run = refl

two-Wide : AllWide (counters 120 7 ∷ counters 120 30 ∷ [])
two-Wide = (
  record {
    attacker = omega arith;
    total = omega arith;
    mined = omega arith;
    own = omega arith;
    switches = omega arith;
  },
  (
    record {
      attacker = omega arith;
      total = omega arith;
      mined = omega arith;
      own = omega arith;
      switches = omega arith;
    },
    tt,
  ),
)

selfish_report-read_report_example :
    (text : Text) × (selfish_report 2 (counters 120 7 ∷ counters 120 30 ∷ []) ≡ ok text)
    × (read_report 2 text ≡ ok (counters 120 7 ∷ counters 120 30 ∷ []))
selfish_report-read_report_example =
    selfish_report-read_report 2 (counters 120 7) (counters 120 30 ∷ []) refl (omega arith) two-Wide

-- A node that mined, with its counters.
abbrev finished : ℕ → NodeState
finished own = record node_started {
  blockchain_state = record (node_started.blockchain_state) {
    world = record (node_started.blockchain_state.world) {
      stats = record (node_started.blockchain_state.world.stats) {
        selfish_stats = counters 120 own;
      };
    };
    mined_by_me = 2 * own;
  };
}

abbrev shared : Results
shared = record { tot_mined = 0; selfish_stats = counters 0 0 ∷ counters 0 0 ∷ [] }

finish_all_any_order_example :
    finish_all stats_selfish ((0, finished 7) ∷ (1, finished 30) ∷ []) shared
    ≡ finish_all stats_selfish ((1, finished 30) ∷ (0, finished 7) ∷ []) shared
finish_all_any_order_example =
    finish_all_any_order stats_selfish ((0, finished 7) ∷ (1, finished 30) ∷ [])
      ((1, finished 30) ∷ (0, finished 7) ∷ []) shared (Permᴰ.swap refl refl) ((refl, tt), (tt, tt))

report_counters_example : Reported 2 ((1, finished 30) ∷ (0, finished 7) ∷ []) shared
unfolding finish_all
report_counters_example =
    report_counters 2 ((1, finished 30) ∷ (0, finished 7) ∷ []) shared refl (omega arith)
      (omega arith) two-Wide ((refl, tt), (tt, tt))

load-dump_selfish_stats_binary_example :
    load_selfish_stats (dump_selfish_stats_binary (counters 120 7)) ≡ ok (counters 120 7)
load-dump_selfish_stats_binary_example = load-dump_selfish_stats_binary (counters 120 7) two-Wide.0
