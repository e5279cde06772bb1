-- ===== src/Report/Reading.antt =====
-- Reading back the report that main of RBlockSim/src/RBlockSim.c writes.
use rblock_sim_reproducibili.Base.{
  ℕ, zero, suc, ◌^◌, ◌<◌, ◌≡◌, refl, List, [], ◌∷◌, ◌++◌, length, ◌==◌, Bool, true, false,
}
use rblock_sim_reproducibili.Run.{Run, ok, out_of_fuel, ◌>>=◌}
use rblock_sim_reproducibili.Statistics.{SelfishStatsState}
use rblock_sim_reproducibili.Report.{Text, bytes, selfish_report}
use rblock_sim_reproducibili.Report.Rows.{
  expect, read_row, read_row-selfish_row, selfish_row-append,
}
use rblock_sim_reproducibili.Report.Fit.{
  AllWide, separated, report_start, report_text, selfish_report-ok,
}

-- The text goes on with these bytes.
abbrev pub expect_all : Text → Text → Run Text
expect_all [] s = ok s
expect_all (c ∷ cs) s = expect c s >>= expect_all cs

-- Whether a comma announces one more row.
abbrev pub goes_on : Text → Bool
goes_on [] = false
goes_on (c ∷ s) = c == b','

-- The rows, with fuel for their number.
unfoldable pub read_rows : ℕ → Text → Run (List SelfishStatsState)
unfolding read_row
read_rows zero s = out_of_fuel
read_rows (suc f) s = read_row s >>= λ (row, rest). elim (goes_on rest) [
  | true ↦ expect_all (bytes ",\n") rest >>= λ next. read_rows f next >>= λ rows. ok (row ∷ rows)
  | false ↦ expect_all (bytes "\n]\n}\n") rest >>= λ end. ok (row ∷ [])
]

-- The report: the header, and then the counters of each node.
unfoldable pub read_report : ℕ → Text → Run (List SelfishStatsState)
unfolding read_rows
read_report f s = expect_all report_start s >>= read_rows f

read_rows-separated :
    (s : SelfishStatsState) (ss : List SelfishStatsState)
    → read_rows (length (s ∷ ss)) (separated s ss ++ bytes "\n]\n}\n") ≡ ok (s ∷ ss)
unfolding read_rows
read_rows-separated s [] =
    let row = selfish_row-append s [] (bytes "\n]\n}\n") in
    rw (row, read_row-selfish_row s (bytes "\n]\n}\n"), ◌>>=◌) refl
read_rows-separated s (t ∷ ts) =
    let row = selfish_row-append s (bytes ",\n" ++ separated t ts) (bytes "\n]\n}\n") in
    rw (row, read_row-selfish_row s (bytes ",\n" ++ separated t ts ++ bytes "\n]\n}\n"), ◌>>=◌)
      (rw (read_rows-separated t ts, ◌>>=◌) refl)

-- The report of a simulation always fits its buffer, and from its text the counters of all nodes
-- are read back, in order. Assumes that there is a node and fewer than 2 ^ 55, an entry for each, and
-- that the counters are 64-bit numbers.
pub selfish_report-read_report :
    (lps : ℕ) (s : SelfishStatsState) (ss : List SelfishStatsState)
    → lps ≡ length (s ∷ ss)
    → lps < 2 ^ 55
    → AllWide (s ∷ ss)
    → (text : Text) × (selfish_report lps (s ∷ ss) ≡ ok text) × (read_report lps text ≡ ok (s ∷ ss))
unfolding read_report
selfish_report-read_report lps s ss count few w =
    (report_text s ss, selfish_report-ok lps s ss count few w, rw count (read_rows-separated s ss))
