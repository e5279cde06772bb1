-- ===== src/Report/Finish.antt =====
-- LP_FINI of RBlockSim/src/RBlockSim.c on all nodes: what the shared results hold, in whichever order
-- the nodes finish.
use mathlib.Core.List.{Permᴰ}
use rblock_sim_reproducibili.Base.{
  ℕ, ◌+◌, ◌≡◌, refl, ◌∙◌, ap, subst, List, [], ◌∷◌, set_comm, ◌==◌, false, arith,
}
use rblock_sim_reproducibili.Config.{
  StatsType, stats_none, stats_detailed, stats_fifty_one, stats_selfish,
}
use rblock_sim_reproducibili.Node.{NodeState}
use rblock_sim_reproducibili.Report.{Results, finish_node, finish_all}

-- None of them has this identifier.
abbrev pub IsAbsent : ℕ → List (ℕ × NodeState) → Type 0
IsAbsent me [] = Unit {0}
IsAbsent me ((id, t) ∷ rest) = ((id == me) ≡ false) × IsAbsent me rest

-- Their identifiers differ.
abbrev pub AreDistinct : List (ℕ × NodeState) → Type 0
AreDistinct [] = Unit {0}
AreDistinct ((id, t) ∷ rest) = IsAbsent id rest × AreDistinct rest

-- The blocks that they mined.
abbrev pub mined_by : List (ℕ × NodeState) → ℕ
mined_by [] = 0
mined_by ((id, t) ∷ rest) = t.blockchain_state.mined_by_me + mined_by rest

results_eq : (a b : Results) → a.tot_mined ≡ b.tot_mined → a.selfish_stats ≡ b.selfish_stats → a ≡ b
results_eq a b e f = ground (arith, e, f)

-- Two nodes may finish in either order.
finish_node_comm :
    (ty : StatsType) (i j : ℕ) (s t : NodeState) (r : Results)
    → (i == j) ≡ false
    → finish_node ty j t (finish_node ty i s r) ≡ finish_node ty i s (finish_node ty j t r)
unfolding finish_node
finish_node_comm stats_selfish i j s t r apart = results_eq _ _ (omega arith) (
    set_comm r.selfish_stats i j s.blockchain_state.world.stats.selfish_stats
      t.blockchain_state.world.stats.selfish_stats apart)
finish_node_comm stats_none i j s t r apart = results_eq _ _ (omega arith) refl
finish_node_comm stats_detailed i j s t r apart = results_eq _ _ (omega arith) refl
finish_node_comm stats_fifty_one i j s t r apart = results_eq _ _ (omega arith) refl

IsAbsent-permuted :
    {a b : List (ℕ × NodeState)} (me : ℕ) → Permᴰ a b → IsAbsent me a → IsAbsent me b
IsAbsent-permuted me Permᴰ.nil h = h
IsAbsent-permuted me (Permᴰ.cons e rest) h =
    (ground (arith, h.0, ap (λ (x : ℕ × NodeState). x.0) e), IsAbsent-permuted me rest h.1)
IsAbsent-permuted me (Permᴰ.swap e f) h = (
  ground (arith, h.1.0, ap (λ (x : ℕ × NodeState). x.0) f),
  (ground (arith, h.0, ap (λ (x : ℕ × NodeState). x.0) e), h.1.1),
)
IsAbsent-permuted me (Permᴰ.trans first second) h =
    IsAbsent-permuted me second (IsAbsent-permuted me first h)

AreDistinct-permuted : {a b : List (ℕ × NodeState)} → Permᴰ a b → AreDistinct a → AreDistinct b
AreDistinct-permuted Permᴰ.nil h = h
AreDistinct-permuted (Permᴰ.cons {b = b} {l₂ = l₂} e rest) h = (
  subst (λ (x : ℕ × NodeState). IsAbsent x.0 l₂) e (IsAbsent-permuted _ rest h.0),
  AreDistinct-permuted rest h.1,
)
AreDistinct-permuted (Permᴰ.swap {l = l} e f) h = (
  (
    ground (arith, h.0.0, ap (λ (x : ℕ × NodeState). x.0) e, ap (λ (x : ℕ × NodeState). x.0) f),
    subst (λ (x : ℕ × NodeState). IsAbsent x.0 l) f h.1.0,
  ),
  (subst (λ (x : ℕ × NodeState). IsAbsent x.0 l) e h.0.1, h.1.1),
)
AreDistinct-permuted (Permᴰ.trans first second) h =
    AreDistinct-permuted second (AreDistinct-permuted first h)

-- The order in which the nodes finish does not matter: the sum of the mined blocks and the array of
-- the counters come out the same. Assumes that the nodes have different identifiers.
pub finish_all_any_order :
    (ty : StatsType) (a b : List (ℕ × NodeState)) (r : Results)
    → Permᴰ a b
    → AreDistinct a
    → finish_all ty a r ≡ finish_all ty b r
unfolding finish_all
finish_all_any_order ty _ _ r Permᴰ.nil h = refl
finish_all_any_order ty _ _ r (Permᴰ.cons {a = x} {b = y} {l₁ = l₁} {l₂ = l₂} e rest) h =
    ap (λ (z : ℕ × NodeState). finish_all ty l₁ (finish_node ty z.0 z.1 r)) e
    ∙ finish_all_any_order ty l₁ l₂ (finish_node ty y.0 y.1 r) rest h.1
finish_all_any_order ty _ _ r (Permᴰ.swap {a = x} {b = y} {l = l} e f) h =
    ap (finish_all ty l) (finish_node_comm ty x.0 y.0 x.1 y.1 r (ground (arith, h.0.0)))
    ∙ ap
        (λ (z : (ℕ × NodeState) × (ℕ × NodeState)).
          finish_all ty l (finish_node ty z.1.0 z.1.1 (finish_node ty z.0.0 z.0.1 r)))
        (λ i. (f i, e i))
finish_all_any_order ty a b r (Permᴰ.trans {l₂ = m} first second) h =
    finish_all_any_order ty a m r first h
    ∙ finish_all_any_order ty m b r second (AreDistinct-permuted first h)
