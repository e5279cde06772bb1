-- ===== src/Report/Network.antt =====
-- The report of a whole network: LP_FINI of every node, and then the end of main
-- (RBlockSim/src/RBlockSim.c).
use mathlib.Core.List.{Memᴰ}
use rblock_sim_reproducibili.Base.{
  ℕ, zero, suc, ◌^◌, ◌<◌, ◌≡◌, refl, ◌∙◌, ap, sym, List, [], ◌∷◌, length, length-set, get_elem?,
  get_elem?-set, set, ◌==◌, false, some, arith,
}
use rblock_sim_reproducibili.Run.{ok}
use rblock_sim_reproducibili.Config.{stats_selfish}
use rblock_sim_reproducibili.Statistics.{SelfishStatsState}
use rblock_sim_reproducibili.Node.{NodeState}
use rblock_sim_reproducibili.Report.{Text, Results, finish_node, finish_all, selfish_report}
use rblock_sim_reproducibili.Report.Finish.{IsAbsent, AreDistinct}
use rblock_sim_reproducibili.Report.Fit.{AllWide}
use rblock_sim_reproducibili.Report.Reading.{read_report, selfish_report-read_report}

abbrev pub counters_of : NodeState → SelfishStatsState
counters_of s = s.blockchain_state.world.stats.selfish_stats

get_elem?-set_other {ℓ} :
    {A : Type ℓ} (xs : List A) (i j : ℕ) (v : A)
    → (i == j) ≡ false
    → get_elem? (set xs i v) j ≡ get_elem? xs j
get_elem?-set_other [] i j v h = refl
get_elem?-set_other (x ∷ xs) zero zero v h = absurd (ground (arith, h))
get_elem?-set_other (x ∷ xs) zero (suc j) v h = refl
get_elem?-set_other (x ∷ xs) (suc i) zero v h = refl
get_elem?-set_other (x ∷ xs) (suc i) (suc j) v h = get_elem?-set_other xs i j v (ground (arith, h))

-- A node that does not finish keeps its entry.
finish_all-absent :
    (order : List (ℕ × NodeState)) (r : Results) (me : ℕ)
    → IsAbsent me order
    → get_elem? (finish_all stats_selfish order r).selfish_stats me ≡ get_elem? r.selfish_stats me
unfolding finish_all finish_node
finish_all-absent [] r me h = refl
finish_all-absent ((id, s) ∷ rest) r me h =
    finish_all-absent rest (finish_node stats_selfish id s r) me h.1
    ∙ get_elem?-set_other r.selfish_stats id me (counters_of s) h.0

length-finish_all :
    (order : List (ℕ × NodeState)) (r : Results)
    → length (finish_all stats_selfish order r).selfish_stats ≡ length r.selfish_stats
unfolding finish_all finish_node
length-finish_all [] r = refl
length-finish_all ((id, s) ∷ rest) r =
    length-finish_all rest (finish_node stats_selfish id s r)
    ∙ length-set r.selfish_stats id (counters_of s)

-- A node that finishes has its own counters in its entry.
finish_all-counters :
    (order : List (ℕ × NodeState)) (r : Results) (me : ℕ) (s : NodeState)
    → AreDistinct order
    → Memᴰ (me, s) order
    → me < length r.selfish_stats
    → get_elem? (finish_all stats_selfish order r).selfish_stats me ≡ some (counters_of s)
unfolding finish_all finish_node
finish_all-counters [] r me s h m short = elim m [ ]
finish_all-counters ((id, t) ∷ rest) r me s h (Memᴰ.head e) short =
    let same : me ≡ id = ap (λ (x : ℕ × NodeState). x.0) e in
    let state : s ≡ t = ap (λ (x : ℕ × NodeState). x.1) e in
    let inside : id < length r.selfish_stats = omega (arith, same, short) in
    let own : get_elem? (set r.selfish_stats id (counters_of t)) id ≡ some (counters_of t) =
      ground (arith, get_elem?-set r.selfish_stats id id (counters_of t) inside) in
    ap (get_elem? (finish_all stats_selfish rest (finish_node stats_selfish id t r)).selfish_stats)
      same
    ∙ finish_all-absent rest (finish_node stats_selfish id t r) id h.0
    ∙ own
    ∙ ap (λ (x : NodeState). some (counters_of x)) (sym state)
finish_all-counters ((id, t) ∷ rest) r me s h (Memᴰ.tail m) short =
    finish_all-counters rest (finish_node stats_selfish id t r) me s h.1 m
      (omega (arith, length-set r.selfish_stats id (counters_of t)))

-- What is read from the report of a network.
pub record Reported (lps : ℕ) (order : List (ℕ × NodeState)) (r : Results) : Type 0 where
  pub text : Text
  pub written : selfish_report lps (finish_all stats_selfish order r).selfish_stats ≡ ok text
  pub rows : List SelfishStatsState
  pub read : read_report lps text ≡ ok rows
  pub size : length rows ≡ lps
  pub own :
      (me : ℕ) (s : NodeState)
      → Memᴰ (me, s) order
      → me < lps
      → get_elem? rows me ≡ some (counters_of s)

Reported-rows :
    (lps : ℕ) (order : List (ℕ × NodeState)) (r : Results) (rows : List SelfishStatsState)
    → (finish_all stats_selfish order r).selfish_stats ≡ rows
    → length rows ≡ lps
    → length r.selfish_stats ≡ lps
    → 0 < lps
    → lps < 2 ^ 55
    → AllWide rows
    → AreDistinct order
    → Reported lps order r
Reported-rows lps order r [] e size room some' few w h = absurd (omega (arith, size))
Reported-rows lps order r (s ∷ ss) e size room some' few w h =
    let (text, written, read) = selfish_report-read_report lps s ss (sym size) few w in
    record {
      text = text;
      written = ap (selfish_report lps) e ∙ written;
      rows = s ∷ ss;
      read = read;
      size = size;
      own = λ me t m short.
          ap (λ (x : List SelfishStatsState). get_elem? x me) (sym e)
          ∙ finish_all-counters order r me t h m (omega (arith, room));
    }

-- After LP_FINI of the nodes, in whichever order, the report of main can be written and read back,
-- and its row with a node's number holds the counters of that node. Assumes that the array has an
-- entry for each of the nodes, of which there is one at least and fewer than 2 ^ 55, that the nodes
-- have different numbers, and that all counters are 64-bit numbers.
pub report_counters :
    (lps : ℕ) (order : List (ℕ × NodeState)) (r : Results)
    → length r.selfish_stats ≡ lps
    → 0 < lps
    → lps < 2 ^ 55
    → AllWide (finish_all stats_selfish order r).selfish_stats
    → AreDistinct order
    → Reported lps order r
report_counters lps order r room some' few w h =
    Reported-rows lps order r (finish_all stats_selfish order r).selfish_stats refl
      (length-finish_all order r ∙ room) room some' few w h
