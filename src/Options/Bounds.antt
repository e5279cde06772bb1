-- ===== src/Options/Bounds.antt =====
-- What the options of the command line of RBlockSim/src/RBlockSim.c may configure.
use rblock_sim_reproducibili.Base.{
  ℕ, ◌≤◌, ◌≡◌, ◌≢◌, ◌⊎◌, inl, Option, none, some, List, [], ◌∷◌, arith, subst, refl,
}
use rblock_sim_reproducibili.Run.{bind_returned, ok, ◌>>=◌}
use rblock_sim_reproducibili.Platform.{Double, Platform}
use rblock_sim_reproducibili.Config.{
  Constants, AttackConfig, attack_none, attack_selfish_mining, attack_fifty_one, StatsType,
  stats_none, stats_selfish,
}
use rblock_sim_reproducibili.Options.{
  CommandOption, opt_threads, opt_block_interval, opt_attack, opt_hashpower, opt_attack_depth,
  opt_catchup_tolerance, opt_start_time, opt_output, opt_rng_seed, opt_unknown, name_fifty_one,
  name_selfish, name_other, Settings, AttackType, type_none, type_selfish_mining, type_fifty_one,
  read_option, read_options, handle_options, select_attack, configure_attack, initial_settings,
}

-- The order of the doubles in which the defaults are compared, and which of them are numbers.
pub record DoubleOrder (p : Platform) : Type 0 where
  pub selfish_low : p.of_ℕ 0 ≤ p.decimal 34 2
  pub selfish_high : p.decimal 34 2 ≤ p.of_ℕ 1
  pub fifty_one_low : p.of_ℕ 0 ≤ p.decimal 51 2
  pub fifty_one_high : p.decimal 51 2 ≤ p.of_ℕ 1
  pub start_low : p.of_ℕ 0 ≤ p.of_ℕ 600
  pub minus_one : p.nan ≢ p.minus_one
  pub zero_number : p.nan ≢ p.of_ℕ 0
  pub one_number : p.nan ≢ p.of_ℕ 1

-- Statistics are kept exactly when there is an attack.
abbrev pub stats_for : AttackType → StatsType
stats_for type_none = stats_none
stats_for type_selfish_mining = stats_selfish
stats_for type_fifty_one = stats_selfish

abbrev pub type_of : AttackConfig → AttackType
type_of attack_none = type_none
type_of (attack_selfish_mining s) = type_selfish_mining
type_of (attack_fifty_one s) = type_fifty_one

module _ (p : Platform) (c : Constants) where
  abbrev pub Portion : Double → Type 0
  Portion x = (x ≡ p.nan) ⊎ ((p.of_ℕ 0 ≤ x) × (x ≤ p.of_ℕ 1))

  abbrev pub StartTime : Double → Type 0
  StartTime x = (x ≡ p.nan) ⊎ (p.of_ℕ 0 ≤ x)

  abbrev pub Tolerated : Option ℕ → Type 0
  Tolerated none = Unit {0}
  Tolerated (some n) = n ≤ c.depth_to_keep

  -- What holds of the settings before and after each option.
  pub record Checked (s : Settings) : Type 0 where
    pub hashpower : (s.hashpower ≡ p.minus_one) ⊎ Portion s.hashpower
    pub start_time : (s.start_time ≡ p.minus_one) ⊎ StartTime s.start_time
    pub tolerance : Tolerated s.catchup_tolerance
    pub paired : s.stats_type ≡ stats_for s.attack_type

  read_option-Checked :
      (s t : Settings) (o : CommandOption)
      → DoubleOrder p
      → Checked s
      → read_option p c s o ≡ ok t
      → Checked t
  unfolding read_option select_attack
  read_option-Checked s t (opt_threads n) d k h =
      ground (arith, h, k.hashpower, k.start_time, k.tolerance, k.paired)
  read_option-Checked s t (opt_block_interval x) d k h =
      ground (arith, h, k.hashpower, k.start_time, k.tolerance, k.paired)
  read_option-Checked s t (opt_attack name_fifty_one) d k h =
      ground (arith, h, k.hashpower, k.start_time, k.tolerance, k.paired)
  read_option-Checked s t (opt_attack name_selfish) d k h =
      ground (arith, h, k.hashpower, k.start_time, k.tolerance, k.paired)
  read_option-Checked s t (opt_attack name_other) d k h = cc h
  read_option-Checked s t (opt_hashpower x) d k h =
      ground
        (arith, h, k.hashpower, k.start_time, k.tolerance, k.paired, d.zero_number, d.one_number)
  read_option-Checked s t (opt_attack_depth n) d k h =
      ground (arith, h, k.hashpower, k.start_time, k.tolerance, k.paired)
  read_option-Checked s t (opt_catchup_tolerance n) d k h =
      ground (arith, h, k.hashpower, k.start_time, k.tolerance, k.paired)
  read_option-Checked s t (opt_start_time x) d k h =
      ground
        (arith, h, k.hashpower, k.start_time, k.tolerance, k.paired, d.zero_number, d.one_number)
  read_option-Checked s t opt_output d k h =
      ground (arith, h, k.hashpower, k.start_time, k.tolerance, k.paired)
  read_option-Checked s t (opt_rng_seed n) d k h =
      ground (arith, h, k.hashpower, k.start_time, k.tolerance, k.paired)
  read_option-Checked s t opt_unknown d k h = cc h

  read_options-Checked :
      (os : List CommandOption) (s t : Settings)
      → DoubleOrder p
      → Checked s
      → read_options p c s os ≡ ok t
      → Checked t
  unfolding read_options
  read_options-Checked [] s t d k h = subst Checked (ground (arith, h)) k
  read_options-Checked (o ∷ os) s t d k h =
      let (u, first, rest) = bind_returned (read_option p c s o) (λ u. read_options p c u os) h in
      read_options-Checked os u t d (read_option-Checked s u o d k first) rest

  -- What the options leave in the configuration of an attack.
  abbrev pub Configured : AttackConfig → Type 0
  Configured attack_none = Unit {0}
  Configured (attack_selfish_mining s) =
      Portion s.hash_power_portion
      × (s.catchup_tolerance ≤ c.depth_to_keep)
      × StartTime s.start_time
  Configured (attack_fifty_one s) =
      Portion s.hash_power_portion × (s.catchup_tolerance ≤ c.depth_to_keep)

  configure_attack-Configured :
      (s : Settings) (ty : AttackType) (attack : AttackConfig)
      → DoubleOrder p
      → 1 ≤ c.depth_to_keep
      → Checked s
      → configure_attack p c s ty ≡ ok attack
      → Configured attack × (type_of attack ≡ ty)
  unfolding configure_attack
  configure_attack-Configured s type_none attack_none d deep k h = (tt, refl)
  configure_attack-Configured s type_none (attack_selfish_mining m) d deep k h = ground (arith, h)
  configure_attack-Configured s type_none (attack_fifty_one m) d deep k h = ground (arith, h)
  configure_attack-Configured s type_selfish_mining attack_none d deep k h = cc h
  configure_attack-Configured s type_selfish_mining (attack_selfish_mining m) d deep k h = ground (
    arith, h, d.selfish_low, d.selfish_high, d.start_low, d.minus_one, k.hashpower, k.start_time,
    k.tolerance,
  )
  configure_attack-Configured s type_selfish_mining (attack_fifty_one m) d deep k h = cc h
  configure_attack-Configured s type_fifty_one attack_none d deep k h = ground (arith, h)
  configure_attack-Configured s type_fifty_one (attack_selfish_mining m) d deep k h =
      ground (arith, h)
  configure_attack-Configured s type_fifty_one (attack_fifty_one m) d deep k h = ground (
    arith, h, d.fifty_one_low, d.fifty_one_high, d.minus_one, k.hashpower, k.start_time,
    k.tolerance,
  )

  initial_settings-Checked : Checked (initial_settings p c)
  unfolding initial_settings
  initial_settings-Checked = record {
    hashpower = inl refl;
    start_time = inl refl;
    tolerance = tt;
    paired = refl;
  }

  -- Whatever options are accepted, the attack that they configure uses a portion of the hash power
  -- that is between 0 and 1 or no number, a tolerance that the levels of the chain can hold, and a start
  -- that is not negative or no number, and the statistics are those of selfish mining exactly when
  -- there is an attack. Assumes that the default portions lie between 0 and 1, that -1, 0 and 1 are numbers, and
  -- that at least one level is kept.
  pub handle_options-Configured :
      (os : List CommandOption) (s : Settings) (attack : AttackConfig)
      → DoubleOrder p
      → 1 ≤ c.depth_to_keep
      → handle_options p c os ≡ ok (s, attack)
      → Configured attack × (s.stats_type ≡ stats_for (type_of attack))
  unfolding handle_options
  handle_options-Configured os s attack d deep h =
      let (t, read, h1) =
        bind_returned (read_options p c (initial_settings p c) os)
          (λ t. configure_attack p c t t.attack_type >>= λ a. ok (t, a)) h in
      let (a, configured, h2) =
        bind_returned (configure_attack p c t t.attack_type) (λ a. ok (t, a)) h1 in
      let k = read_options-Checked os (initial_settings p c) t d initial_settings-Checked read in
      let r = configure_attack-Configured t t.attack_type a d deep k configured in
      let same : a ≡ attack = cc h2 in
      (subst Configured same r.0, ground (arith, h2, k.paired, r.1))
