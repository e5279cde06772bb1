-- ===== src/Attacks.antt =====
-- RBlockSim/src/Attacks.c: the choice of the attackers.
pub mod Sampling
use rblock_sim_reproducibili.Base.{
  ℕ, zero, suc, ◌+◌, ◌-◌, ◌%◌, Bool, true, false, not, ◌&&◌, ◌||◌, Option, none, some, List, [],
  ◌∷◌, ◌++◌, ltb, leb, ◌==◌, if◌then◌else◌,
}
use rblock_sim_reproducibili.Run.{Run, ok, abort, ◌>>=◌, ◌>>◌, abort_if, deref}
use rblock_sim_reproducibili.Platform.{Bytes, Rng, Platform}
use rblock_sim_reproducibili.Config.{
  AttackConfig, attack_none, attack_selfish_mining, attack_fifty_one, u32,
}

-- `attacker_ids`, `num_attackers` and `is_attacker_bitmap`; `none` is the null pointer.
pub record Attackers : Type 0 where
  pub attacker_ids : Option (List ℕ)
  pub num_attackers : ℕ
  pub is_attacker_bitmap : Bytes

-- Whether the attack is one that uses a single attacker.
abbrev pub is_single : AttackConfig → Bool
is_single attack_none = false
is_single (attack_selfish_mining s) = true
is_single (attack_fifty_one s) = true

module _ (p : Platform) where
  -- The loop of `generateAttackers`, on the nodes that are left; the ids found so far are in order.
  unfoldable pub generate_attackers : ℕ → ℕ → ℕ → Rng → List ℕ → Bytes → List ℕ × Bytes × Rng
  generate_attackers zero idx_nodes missing rng ids bitmap = (ids, bitmap, rng)
  generate_attackers (suc remaining) idx_nodes missing rng ids bitmap =
      let draw = p.random_u64 rng in
      let taken =
        generate_attackers remaining (idx_nodes + 1) (missing - 1) draw.1 (ids ++ idx_nodes ∷ [])
          (p.bitmap_set bitmap idx_nodes) in
      let skipped = generate_attackers remaining (idx_nodes + 1) missing draw.1 ids bitmap in
      if ltb 0 missing
      then (if ltb (draw.0 % suc remaining) missing then taken else skipped)
      else (ids, bitmap, rng)

  -- The end of `initAttackers`, past its checks.
  unfoldable pub choose_attackers : AttackConfig → ℕ → Attackers → ℕ → Rng → Attackers × Rng
  unfolding generate_attackers
  choose_attackers attack lps a count r =
      let empty = p.bitmap_initialize lps in
      let draw = p.random_u64 r in
      let id = u32 (draw.0 % lps) in
      let found = generate_attackers lps 0 count r [] empty in
      if is_single attack
      then (
        record {
          attacker_ids = some (id ∷ []);
          num_attackers = count;
          is_attacker_bitmap = p.bitmap_set empty id;
        },
        draw.1,
      )
      else (
        record { attacker_ids = some found.0; num_attackers = count; is_attacker_bitmap = found.1 },
        found.2,
      )

  -- `initAttackers` on `lps` nodes; `rng` is `none` for NULL.
  unfoldable pub init_attackers :
      AttackConfig → ℕ → Attackers → ℕ → Option Rng → Run (Attackers × Option Rng)
  unfolding choose_attackers
  init_attackers attack lps a count rng =
      if not (is_single attack) || count == 0
      then ok (record a { is_attacker_bitmap = p.bitmap_initialize lps }, rng)
      else (do
        abort_if (elim a.attacker_ids [ none ↦ false | some ids ↦ true ])
        abort_if (is_single attack && not (count == 1))
        abort_if (leb lps count)
        r ← deref rng
        let chosen = choose_attackers attack lps a count r
        ok (chosen.0, some chosen.1))
