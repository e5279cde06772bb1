-- ===== src/Report/Dumps/Images.antt =====
-- dumpFiftyOneStatsBinary and dumpSelfishStatsBinary of RBlockSim/src/Statistics.c, and a loader for
-- what they write.
use rblock_sim_reproducibili.Base.{
  ℕ, zero, suc, ◌+◌, ◌*◌, ◌/◌, ◌%◌, ◌^◌, ◌<◌, ◌≡◌, refl, ap, [], ◌∷◌, arith,
}
use rblock_sim_reproducibili.Run.{Run, ok, abort, ◌>>=◌}
use rblock_sim_reproducibili.Statistics.{SelfishStatsState}
use rblock_sim_reproducibili.Report.{Text}
use rblock_sim_reproducibili.Report.Rows.{IsWide}
use rblock_sim_reproducibili.Report.Dumps.{word_bytes, dump_selfish_stats_binary}

-- A word of `k` bytes at the front, and the rest.
unfoldable pub load_word : ℕ → Text → Run (ℕ × Text)
load_word zero s = ok (0, s)
load_word (suc k) [] = abort
load_word (suc k) (c ∷ s) = do (n, rest) ← load_word k s; ok (c + 256 * n, rest)

unfoldable pub load_selfish_stats : Text → Run SelfishStatsState
load_selfish_stats s = do
  (attacker, r1) ← load_word 8 s
  (total, r2) ← load_word 8 r1
  (mined, r3) ← load_word 8 r2
  (own, r4) ← load_word 8 r3
  (switches, r5) ← load_word 8 r4
  ok (record {
    attacker_blocks_in_main_chain = attacker;
    total_blocks_in_main_chain = total;
    total_blocks_mined = mined;
    own_blocks_in_main_chain = own;
    switches_to_selfish_chain = switches;
  })

load_word-word_bytes :
    (k n : ℕ) (rest : Text) → n < 256 ^ k → load_word k (word_bytes k n rest) ≡ ok (n, rest)
unfolding load_word word_bytes
load_word-word_bytes zero n rest h = let e : 0 ≡ n = omega arith in ap (λ (m : ℕ). ok (m, rest)) e
load_word-word_bytes (suc k) n rest h =
    let e : n % 256 + 256 * (n / 256) ≡ n = omega arith in
    rw (load_word-word_bytes k (n / 256) rest (omega arith), ◌>>=◌) (ap (λ (m : ℕ). ok (m, rest)) e)

-- The counters of selfish mining are loaded from what `dumpSelfishStatsBinary` writes. Assumes that
-- they are 64-bit numbers.
pub load-dump_selfish_stats_binary :
    (s : SelfishStatsState) → IsWide s → load_selfish_stats (dump_selfish_stats_binary s) ≡ ok s
unfolding load_selfish_stats dump_selfish_stats_binary
load-dump_selfish_stats_binary s w =
    rw (load_word-word_bytes 8 s.attacker_blocks_in_main_chain _ w.attacker, ◌>>=◌)
      (rw (load_word-word_bytes 8 s.total_blocks_in_main_chain _ w.total, ◌>>=◌)
        (rw (load_word-word_bytes 8 s.total_blocks_mined _ w.mined, ◌>>=◌)
          (rw (load_word-word_bytes 8 s.own_blocks_in_main_chain _ w.own, ◌>>=◌)
            (rw (load_word-word_bytes 8 s.switches_to_selfish_chain [] w.switches, ◌>>=◌) refl))))
