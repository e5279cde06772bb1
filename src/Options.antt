-- ===== src/Options.antt =====
-- handle_options and the start of main of RBlockSim/src/RBlockSim.c: the options of the command line
-- and the configuration of the attack that they select. An option stands with its argument as libc
-- reads it (`atoi`, `atof`, `strtoul`, `strcmp`); `-o` only names a file.
pub mod Bounds
use rblock_sim_reproducibili.Base.{
  ℕ, ◌+◌, Bool, true, false, not, ◌||◌, Option, none, some, List, [], ◌∷◌, ltb, ◌==◌, if◌then◌else◌,
}
use rblock_sim_reproducibili.Run.{Run, ok, abort, ◌>>=◌, ◌>>◌, abort_if}
use rblock_sim_reproducibili.Platform.{Double, Platform, less, same_double}
use rblock_sim_reproducibili.Config.{
  Constants, AttackConfig, attack_none, attack_selfish_mining, attack_fifty_one, StatsType,
  stats_none, stats_selfish, u32,
}
use rblock_sim_reproducibili.Attacks.{Attackers, init_attackers}
use rblock_sim_reproducibili.Platform.{Rng}

-- `enum attack_type`
pub data AttackType : Type 0 where
  type_none type_selfish_mining type_fifty_one : AttackType

-- The argument of `-a`: "51", "selfish", or something else.
pub data AttackName : Type 0 where
  name_fifty_one name_selfish name_other : AttackName

-- What `getopt` returns.
pub data CommandOption : Type 0 where
  opt_threads : ℕ → CommandOption
  opt_block_interval : Double → CommandOption
  opt_attack : AttackName → CommandOption
  opt_hashpower : Double → CommandOption
  opt_attack_depth : ℕ → CommandOption
  opt_catchup_tolerance : ℕ → CommandOption
  opt_start_time : Double → CommandOption
  opt_output : CommandOption
  opt_rng_seed : ℕ → CommandOption
  opt_unknown : CommandOption

-- The variables that the loop over the options sets; `none` for an option that is not set.
pub record Settings : Type 0 where
  pub n_threads : ℕ
  pub block_interval : Double
  pub attack_type : AttackType
  pub stats_type : StatsType
  pub hashpower : Double
  pub attack_depth : Option ℕ
  pub catchup_tolerance : Option ℕ
  pub start_time : Double
  pub rng_seed : ℕ

unfoldable pub select_attack : Settings → AttackName → Run Settings
select_attack s name_fifty_one =
    ok (record s { attack_type = type_fifty_one; stats_type = stats_selfish })
select_attack s name_selfish =
    ok (record s { attack_type = type_selfish_mining; stats_type = stats_selfish })
select_attack s name_other = abort

module _ (p : Platform) (c : Constants) where
  -- One round of the loop.
  unfoldable pub read_option : Settings → CommandOption → Run Settings
  unfolding select_attack
  read_option s (opt_threads n) = ok (record s { n_threads = n })
  read_option s (opt_block_interval x) = ok (record s { block_interval = x })
  read_option s (opt_attack name) = select_attack s name
  read_option s (opt_hashpower x) =
      if less p x (p.of_ℕ 0) || less p (p.of_ℕ 1) x then abort else ok (record s { hashpower = x })
  read_option s (opt_attack_depth n) = ok (record s { attack_depth = some n })
  read_option s (opt_catchup_tolerance n) =
      if ltb c.depth_to_keep n then abort else ok (record s { catchup_tolerance = some n })
  read_option s (opt_start_time x) =
      if less p x (p.of_ℕ 0) then abort else ok (record s { start_time = x })
  read_option s opt_output = ok s
  read_option s (opt_rng_seed n) = ok (record s { rng_seed = u32 n })
  read_option s opt_unknown = abort

  unfoldable pub read_options : Settings → List CommandOption → Run Settings
  unfolding read_option
  read_options s [] = ok s
  read_options s (o ∷ os) = read_option s o >>= λ t. read_options t os

  -- The four blocks after the loop, for each kind of attack. An attack depth does not go with a 51%
  -- attack, and without an attack only a start time is let through.
  unfoldable pub configure_attack : Settings → AttackType → Run AttackConfig
  configure_attack s type_none = do
    abort_if (not (same_double p s.hashpower p.minus_one))
    abort_if (elim s.catchup_tolerance [ none ↦ false | some n ↦ true ])
    abort_if (elim s.attack_depth [ none ↦ false | some n ↦ true ])
    ok attack_none
  configure_attack s type_selfish_mining = ok (
      attack_selfish_mining (record {
        hash_power_portion =
            if same_double p s.hashpower p.minus_one then p.decimal 34 2 else s.hashpower;
        depth = elim s.attack_depth [ none ↦ 2 | some n ↦ n ];
        catchup_tolerance = elim s.catchup_tolerance [ none ↦ 1 | some n ↦ n ];
        start_time = if same_double p s.start_time p.minus_one then p.of_ℕ 600 else s.start_time;
      }))
  configure_attack s type_fifty_one = do
    abort_if (elim s.attack_depth [ none ↦ false | some n ↦ true ])
    ok (
        attack_fifty_one (record {
          hash_power_portion =
              if same_double p s.hashpower p.minus_one then p.decimal 51 2 else s.hashpower;
          catchup_tolerance = elim s.catchup_tolerance [ none ↦ 1 | some n ↦ n ];
        }))

  -- The settings before the loop, from `main` and Config.c.
  unfoldable pub initial_settings : Settings
  initial_settings = record {
    n_threads = 0;
    block_interval = p.of_ℕ 13;
    attack_type = type_none;
    stats_type = stats_none;
    hashpower = p.minus_one;
    attack_depth = none;
    catchup_tolerance = none;
    start_time = p.minus_one;
    rng_seed = c.rng_seed;
  }

  unfoldable pub handle_options : List CommandOption → Run (Settings × AttackConfig)
  unfolding initial_settings read_options configure_attack
  handle_options os = do
    s ← read_options initial_settings os
    attack ← configure_attack s s.attack_type
    ok (s, attack)

  -- How many attackers `main` asks for.
  abbrev pub attackers_wanted : AttackConfig → ℕ
  attackers_wanted attack_none = 0
  attackers_wanted (attack_selfish_mining s) = 1
  attackers_wanted (attack_fifty_one s) = 1

  -- The generator that `main` hands over: NULL without an attack.
  abbrev pub attackers_stream : AttackConfig → Rng → Option Rng
  attackers_stream attack_none rng = none
  attackers_stream (attack_selfish_mining s) rng = some rng
  attackers_stream (attack_fifty_one s) rng = some rng

  -- `main` from the options to the choice of the attacker, with the generator as it is left.
  unfoldable pub start_attackers :
      List CommandOption → Run (Settings × AttackConfig × Attackers × Rng)
  unfolding handle_options
  start_attackers os = do
    (s, attack) ← handle_options os
    let none_yet : Attackers = record {
      attacker_ids = none;
      num_attackers = 0;
      is_attacker_bitmap = [];
    }
    let rng : Rng = p.initialize_stream s.rng_seed
    (a, left) ←
        init_attackers p attack c.n_nodes none_yet (attackers_wanted attack)
          (attackers_stream attack rng)
    let last : Rng = elim left [ none ↦ rng | some r ↦ r ]
    ok (s, attack, a, last)
