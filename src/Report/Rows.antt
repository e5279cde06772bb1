-- ===== src/Report/Rows.antt =====
-- The rows that sprintSelfishStats of RBlockSim/src/Statistics.c writes, and a reader for them.
use rblock_sim_reproducibili.Base.{
  ◌/◌, ◌%◌, ℕ, zero, suc, ◌+◌, ◌^◌, ◌≤◌, ◌<◌, ◌≡◌, refl, [], ◌∷◌, ◌++◌, length, ◌==◌, arith,
  if◌then◌else◌,
}
use rblock_sim_reproducibili.Run.{Run, ok, abort, ◌>>=◌}
use rblock_sim_reproducibili.Statistics.{SelfishStatsState}
use rblock_sim_reproducibili.Report.{Text, print_digits, selfish_row}
use rblock_sim_reproducibili.Report.Numbers.{
  read_digits, read_digits-print_number, length-print_number,
}

-- The text goes on with that byte.
abbrev pub expect : ℕ → Text → Run Text
expect c [] = abort
expect c (d ∷ s) = if d == c then ok s else abort

unfoldable pub read_row : Text → Run (SelfishStatsState × Text)
read_row s = do
  s1 ← expect b'[' s
  let (attacker, r1) = read_digits 0 s1
  s2 ← expect b',' r1
  let (total, r2) = read_digits 0 s2
  s3 ← expect b',' r2
  let (mined, r3) = read_digits 0 s3
  s4 ← expect b',' r3
  let (own, r4) = read_digits 0 s4
  s5 ← expect b',' r4
  let (switches, r5) = read_digits 0 s5
  rest ← expect b']' r5
  ok (
    record {
      attacker_blocks_in_main_chain = attacker;
      total_blocks_in_main_chain = total;
      total_blocks_mined = mined;
      own_blocks_in_main_chain = own;
      switches_to_selfish_chain = switches;
    },
    rest,
  )

-- A row in front of any text is read back.
pub read_row-selfish_row :
    (s : SelfishStatsState) (rest : Text) → read_row (selfish_row s rest) ≡ ok (s, rest)
unfolding read_row selfish_row
read_row-selfish_row s rest =
    rw (read_digits-print_number s.attacker_blocks_in_main_chain b',' _ refl) (
      rw (read_digits-print_number s.total_blocks_in_main_chain b',' _ refl) (
        rw (read_digits-print_number s.total_blocks_mined b',' _ refl) (
          rw (read_digits-print_number s.own_blocks_in_main_chain b',' _ refl)
            (rw (read_digits-print_number s.switches_to_selfish_chain b']' rest refl) refl))))

print_digits-append :
    (f n : ℕ) (rest more : Text) → print_digits f n rest ++ more ≡ print_digits f n (rest ++ more)
unfolding print_digits
print_digits-append zero n rest more = refl
print_digits-append (suc f) n rest more =
    ground (arith, print_digits-append f (n / 10) ((48 + n % 10) ∷ rest) more)

-- What stands behind a row may be added to it later.
pub selfish_row-append :
    (s : SelfishStatsState) (rest more : Text)
    → selfish_row s rest ++ more ≡ selfish_row s (rest ++ more)
unfolding selfish_row
selfish_row-append s rest more = simp (print_digits-append)

-- With 64-bit counters a row has at most 106 bytes.
pub record IsWide (s : SelfishStatsState) : Type 0 where
  pub attacker : s.attacker_blocks_in_main_chain < 2 ^ 64
  pub total : s.total_blocks_in_main_chain < 2 ^ 64
  pub mined : s.total_blocks_mined < 2 ^ 64
  pub own : s.own_blocks_in_main_chain < 2 ^ 64
  pub switches : s.switches_to_selfish_chain < 2 ^ 64

pub length-selfish_row :
    (s : SelfishStatsState) (rest : Text)
    → IsWide s
    → length (selfish_row s rest) ≤ 106 + length rest
unfolding selfish_row
length-selfish_row s rest w = omega (
  arith,
  length-print_number s.attacker_blocks_in_main_chain _ w.attacker,
  length-print_number s.total_blocks_in_main_chain _ w.total,
  length-print_number s.total_blocks_mined _ w.mined,
  length-print_number s.own_blocks_in_main_chain _ w.own,
  length-print_number s.switches_to_selfish_chain (b']' ∷ rest) w.switches,
)
