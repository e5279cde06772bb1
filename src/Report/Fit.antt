-- ===== src/Report/Fit.antt =====
-- The report that main of RBlockSim/src/RBlockSim.c writes at the end of a simulation of selfish
-- mining: the room that it has, and what can be read from it.
use mathlib.Core.List.{append_assoc, append-nil}
use rblock_sim_reproducibili.Base.{
  ℕ, ◌+◌, ◌-◌, ◌*◌, ◌^◌, ◌≤◌, ◌<◌, ◌≡◌, refl, ◌∙◌, ap, sym, List, [], ◌∷◌, ◌++◌, length,
  length-append, arith,
}
use rblock_sim_reproducibili.Run.{ok, ◌>>=◌}
use rblock_sim_reproducibili.Config.{u64}
use rblock_sim_reproducibili.Statistics.{SelfishStatsState}
use rblock_sim_reproducibili.Report.{
  Text, bytes, drop_last, append_text, header_text, sprint_selfish_stats_header, selfish_row,
  sprint_selfish_stats, report_rows, selfish_report,
}
use rblock_sim_reproducibili.Report.Rows.{selfish_row-append, IsWide, length-selfish_row}

-- Every node's counters are 64-bit numbers.
abbrev pub AllWide : List SelfishStatsState → Type 0
AllWide [] = Unit {0}
AllWide (s ∷ ss) = IsWide s × AllWide ss

-- The rows, each one with the comma and the end of line behind it.
abbrev terminated : List SelfishStatsState → Text
terminated [] = []
terminated (s ∷ ss) = selfish_row s (bytes ",\n" ++ terminated ss)

-- The rows with commas and ends of lines between them.
abbrev pub separated : SelfishStatsState → List SelfishStatsState → Text
separated s [] = selfish_row s []
separated s (t ∷ ts) = selfish_row s (bytes ",\n" ++ separated t ts)

abbrev pub report_start : Text
report_start = bytes "{\n\"header\":" ++ header_text ++ bytes ",\n\"data\": [\n"

-- A row that has room is written whole.
sprint_selfish_stats-ok :
    (s : SelfishStatsState) (size : ℕ)
    → length (selfish_row s []) < size
    → sprint_selfish_stats s size ≡ ok (selfish_row s [])
unfolding sprint_selfish_stats
sprint_selfish_stats-ok s size h = ground arith

append_text-ok :
    (size : ℕ) (buffer s : Text)
    → length buffer + length s < size
    → append_text size buffer s ≡ ok (buffer ++ s)
append_text-ok size buffer s h = ground arith

-- The text of a row and of what stands behind it, at the end of a buffer.
joined_row :
    (buffer : Text) (s : SelfishStatsState) (sep rest : Text)
    → buffer ++ selfish_row s [] ++ sep ++ rest ≡ buffer ++ selfish_row s (sep ++ rest)
joined_row buffer s sep rest =
    append_assoc (buffer ++ selfish_row s []) sep rest
    ∙ append_assoc buffer (selfish_row s []) (sep ++ rest)
    ∙ ap (λ x. buffer ++ x) (selfish_row-append s [] (sep ++ rest))

report_rows-ok :
    (size : ℕ) (ss : List SelfishStatsState) (buffer : Text)
    → AllWide ss
    → length buffer + 108 * length ss + 2 < size
    → report_rows size ss buffer ≡ ok (buffer ++ terminated ss)
unfolding report_rows
report_rows-ok size [] buffer w h = ap ok (sym (append-nil buffer))
report_rows-ok size (s ∷ ss) buffer w h =
    let long = length-selfish_row s [] w.0 in
    let joined = length-append buffer (selfish_row s []) in
    let more = length-append (buffer ++ selfish_row s []) (bytes ",\n") in
    rw (sprint_selfish_stats-ok s (size - 1 - length buffer) (omega arith), ◌>>=◌)
      (rw (append_text-ok size (buffer ++ selfish_row s []) (bytes ",\n") (omega arith), ◌>>=◌)
        (report_rows-ok size ss (buffer ++ selfish_row s [] ++ bytes ",\n") w.1 (omega arith)
          ∙ ap ok (joined_row buffer s (bytes ",\n") (terminated ss))))

drop_last-append : (xs : Text) (x : ℕ) → drop_last (xs ++ x ∷ []) ≡ xs
drop_last-append [] x = refl
drop_last-append (y ∷ []) x = refl
drop_last-append (y ∷ z ∷ xs) x = ap (λ r. y ∷ r) (drop_last-append (z ∷ xs) x)

terminated-separated :
    (s : SelfishStatsState) (ss : List SelfishStatsState)
    → terminated (s ∷ ss) ≡ separated s ss ++ bytes ",\n"
terminated-separated s [] = sym (selfish_row-append s [] (bytes ",\n"))
terminated-separated s (t ∷ ts) =
    ap (λ x. selfish_row s (bytes ",\n" ++ x)) (terminated-separated t ts)
    ∙ sym (selfish_row-append s (bytes ",\n" ++ separated t ts) (bytes ",\n"))

-- Taking back the last comma.
without_comma :
    (buffer : Text) (s : SelfishStatsState) (ss : List SelfishStatsState)
    → drop_last (drop_last (buffer ++ terminated (s ∷ ss))) ≡ buffer ++ separated s ss
without_comma buffer s ss =
    ap (λ x. drop_last (drop_last (buffer ++ x))) (terminated-separated s ss)
    ∙ ap (λ x. drop_last (drop_last x)) (sym (append_assoc buffer (separated s ss) (bytes ",\n")))
    ∙ ap (λ x. drop_last (drop_last x))
        (sym (append_assoc (buffer ++ separated s ss) (b',' ∷ []) (10 ∷ [])))
    ∙ ap drop_last (drop_last-append (buffer ++ separated s ss ++ b',' ∷ []) 10)
    ∙ drop_last-append (buffer ++ separated s ss) b','

length-without_comma :
    (buffer : Text) (s : SelfishStatsState) (ss : List SelfishStatsState)
    → length (buffer ++ separated s ss) + 2 ≡ length (buffer ++ terminated (s ∷ ss))
length-without_comma buffer s ss = omega (
  arith,
  ap (λ (x : Text). length (buffer ++ x)) (terminated-separated s ss),
  length-append buffer (separated s ss ++ bytes ",\n"),
  length-append (separated s ss) (bytes ",\n"),
  length-append buffer (separated s ss),
)

header-ok : (size : ℕ) → 121 < size → sprint_selfish_stats_header size ≡ ok header_text
header-ok size h = ground arith

length-terminated :
    (ss : List SelfishStatsState) → AllWide ss → length (terminated ss) ≤ 108 * length ss
length-terminated [] w = omega arith
length-terminated (s ∷ ss) w =
    omega (arith, length-selfish_row s (bytes ",\n" ++ terminated ss) w.0, length-terminated ss w.1)

-- What `main` writes for `lps` nodes.
abbrev pub report_text : SelfishStatsState → List SelfishStatsState → Text
report_text s ss = report_start ++ separated s ss ++ bytes "\n]\n}\n"

-- The buffer of 256 bytes for each node and 256 more always suffices: no row is truncated, nothing
-- is written outside of it, and the text is the header with one row for each node.
pub selfish_report-ok :
    (lps : ℕ) (s : SelfishStatsState) (ss : List SelfishStatsState)
    → lps ≡ length (s ∷ ss)
    → lps < 2 ^ 55
    → AllWide (s ∷ ss)
    → selfish_report lps (s ∷ ss) ≡ ok (report_text s ss)
unfolding selfish_report
selfish_report-ok lps s ss count few w =
    let size = u64 (lps * 256 + 256) in
    let room : size ≡ lps * 256 + 256 = omega arith in
    let starts : length report_start ≡ 144 = refl in
    let rows = report_rows-ok size (s ∷ ss) report_start w (omega (arith, room, starts, count)) in
    let whole = length-append report_start (terminated (s ∷ ss)) in
    let shorter = length-without_comma report_start s ss in
    rw (append_text-ok size [] (bytes "{\n\"header\":") (omega (arith, room)), ◌>>=◌)
      (rw (header-ok (size - 1 - 11) (omega (arith, room, count)), ◌>>=◌)
        (rw
          (
            append_text-ok size (bytes "{\n\"header\":" ++ header_text) (bytes ",\n\"data\": [\n")
                (omega (arith, room, count)),
            ◌>>=◌,
          )
          (rw (rows, ◌>>=◌)
            (ap (λ x. append_text size x (bytes "\n]\n}\n")) (without_comma report_start s ss)
              ∙ append_text-ok size (report_start ++ separated s ss) (bytes "\n]\n}\n") (
                  omega
                    (arith, room, starts, count, whole, shorter, length-terminated (s ∷ ss) w))))))
