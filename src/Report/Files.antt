-- ===== src/Report/Files.antt =====
-- The names of the files with the results, and the file about the attack: formatStatsFolder,
-- formatStatsFile, the search of main for a free folder and LP_FINI of an attacker, of
-- RBlockSim/src/RBlockSim.c. The buffer of 2048 bytes for the name of a
-- file is long enough.
use rblock_sim_reproducibili.Base.{
  ℕ, zero, suc, ◌+◌, ◌≤◌, ◌<◌, ◌≡◌, Bool-cases, inl, inr, Bool, true, false, Option, none, some,
  ◌++◌, arith, ◌==◌,
}
use rblock_sim_reproducibili.Run.{Run, ok, out_of_fuel}
use rblock_sim_reproducibili.Platform.{Double, Platform}
use rblock_sim_reproducibili.Config.{
  AttackConfig, attack_none, attack_selfish_mining, attack_fifty_one, u32,
}
use rblock_sim_reproducibili.Node.{NodeState}
use rblock_sim_reproducibili.Report.{Text, bytes, take, print_digits, print_number}

-- `conf.lps`, `conf.n_threads` and `rng_seed`.
pub record RunSettings : Type 0 where
  pub lps : ℕ
  pub n_threads : ℕ
  pub rng_seed : ℕ

-- `show` is the conversion `%lf`; `%u` takes the low 32 bits of what it is given.
module _ (p : Platform) (show : Double → Text) where
  -- `_a%s_h%lf_c%u_d%u_rng%u`, in front of the rest.
  unfoldable pub attack_name : AttackConfig → ℕ → Text → Text
  unfolding print_digits
  attack_name attack_none seed rest =
      bytes "_anone_h" ++ show (p.of_ℕ 0) ++ bytes "_c0_d0_rng" ++ print_number (u32 seed) rest
  attack_name (attack_fifty_one a) seed rest =
      bytes "_a51_h"
      ++ show a.hash_power_portion
      ++ bytes "_c"
      ++ print_number (u32 a.catchup_tolerance) (bytes "_d0_rng" ++ print_number (u32 seed) rest)
  attack_name (attack_selfish_mining a) seed rest =
      bytes "_aselfish_h"
      ++ show a.hash_power_portion
      ++ bytes "_c"
      ++ print_number (u32 a.catchup_tolerance)
          (bytes "_d" ++ print_number (u32 a.depth) (bytes "_rng" ++ print_number (u32 seed) rest))

  -- `sz%lu_w%lu_bi%lf`, and the attack.
  unfoldable pub run_name : RunSettings → Double → AttackConfig → Text → Text
  unfolding attack_name
  run_name s block_interval attack rest =
      bytes "sz"
      ++ print_number s.lps (
          bytes "_w"
          ++ print_number s.n_threads
              (bytes "_bi" ++ show block_interval ++ attack_name attack s.rng_seed rest))

  -- The name is cut to the 256 bytes that `main` takes from `old_stats_folder`, the null byte included.
  unfoldable pub format_stats_folder : RunSettings → Double → AttackConfig → ℕ → Text
  unfolding run_name
  format_stats_folder s block_interval attack folder = take 255 (
      bytes "Results_"
      ++ run_name s block_interval attack (bytes "_" ++ print_number folder (bytes "/")))

  unfoldable pub format_stats_file : RunSettings → Double → AttackConfig → Text
  unfolding run_name
  format_stats_file s block_interval attack =
      bytes "stats_" ++ run_name s block_interval attack (bytes ".json")

  -- The search of `main` for a folder that is not there, from the number `i` on; `found` is `access`.
  unfoldable pub free_folder : ℕ → (Text → Bool) → RunSettings → Double → AttackConfig → ℕ → Run ℕ
  free_folder zero found s block_interval attack i = out_of_fuel
  free_folder (suc f) found s block_interval attack i =
      elim (found (format_stats_folder s block_interval attack i)) [
        | true ↦ free_folder f found s block_interval attack (i + 1)
        | false ↦ ok i
      ]

  -- The metadata from the hash power on.
  unfoldable pub metadata_rest : NodeState → ℕ → ℕ → Text
  unfolding print_digits
  metadata_rest s depth tolerance =
      bytes ",\"attacker_hashpower\":"
      ++ show s.blockchain_state.hash_power_portion
      ++ bytes ",\"depth\":"
      ++ print_number (u32 depth) (
          bytes ",\"catchup_tolerance\":"
          ++ print_number (u32 tolerance) (
              bytes ",\"failed_attacks\":"
              ++ print_number s.attacker.failed_attacks (
                  bytes ",\"successful_conceals\":"
                  ++ print_number s.attacker.successful_conceals (bytes "\n}\n"))))

  -- What LP_FINI of an attacker writes about the attack: `%u` of `me`, a `node_id_t`.
  unfoldable pub attack_metadata : AttackConfig → ℕ → NodeState → Option Text
  unfolding print_digits metadata_rest
  attack_metadata attack me s = elim attack [
    | attack_none ↦ none
    | attack_fifty_one a ↦ some (
        bytes "{\n\"attack_type\":\"51\",\"attacker\":"
        ++ print_number (u32 me) (metadata_rest s 0 a.catchup_tolerance))
    | attack_selfish_mining a ↦ some (
        bytes "{\n\"attack_type\":\"selfish\",\"attacker\":"
        ++ print_number (u32 me) (metadata_rest s a.depth a.catchup_tolerance))
  ]

  -- The search ends at the first free number.
  pub free_folder_lem :
      (f : ℕ) (found : Text → Bool) (s : RunSettings) (block_interval : Double)
      (attack : AttackConfig) (i k : ℕ)
      → i ≤ k
      → k < i + f
      → found (format_stats_folder s block_interval attack k) ≡ false
      → ((j : ℕ) → i ≤ j → j < k → found (format_stats_folder s block_interval attack j) ≡ true)
      → free_folder f found s block_interval attack i ≡ ok k
  unfolding free_folder
  free_folder_lem zero found s block_interval attack i k low high free taken = absurd (omega arith)
  free_folder_lem (suc f) found s block_interval attack i k low high free taken =
      elim (Bool-cases (i == k)) [
        | inl e ↦ ground (arith, e, free)
        | inr apart ↦ ground (
          arith,
          taken i (omega arith) (ground (arith, apart)),
          free_folder_lem f found s block_interval attack (i + 1) k (ground (arith, apart))
              (omega arith) free (λ j h. taken j (omega arith)),
        )
      ]
