-- ===== src/Chain/ForkChoice/Order.antt =====
-- What the fork choice of chainNodeMax (RBlockSim/src/Block.c) guarantees, and for whom.
use rblock_sim_reproducibili.Base.{
  ℕ, ◌+◌, ◌<◌, ◌≡◌, inl, inr, Bool-cases, Bool, true, false, refl, ltb, leb, ◌==◌, if◌then◌else◌,
  arith,
}
use rblock_sim_reproducibili.Run.{ok, ◌>>=◌}
use rblock_sim_reproducibili.Platform.{Platform}
use rblock_sim_reproducibili.Config.{AttackConfig, Globals, is_attacker}
use rblock_sim_reproducibili.Chain.{ChainNode}
use rblock_sim_reproducibili.Chain.ForkChoice.{
  max_honest, max_tolerant, max_attacker, chain_node_max, catchup_tolerance,
}

-- Two nodes that the fork choice cannot tell apart.
abbrev pub SameRank : ChainNode → ChainNode → Type 0
SameRank a b =
    (a.score ≡ b.score)
    × (a.ancestors_mined ≡ b.ancestors_mined)
    × (a.timestamp ≡ b.timestamp)
    × (a.miner ≡ b.miner)

-- When an honest node gives the same answer whichever of two nodes comes first, so that the node it
-- prefers depends on the order, their ranks are the same, and it prefers the first.
pub honest_antisym :
    (a b : ChainNode) → max_honest a b ≡ max_honest b a → SameRank a b × (max_honest a b ≡ true)
unfolding max_honest
honest_antisym a b h = ground (arith, h)

module _ (attack : AttackConfig) (t : ℕ) (tolerates : catchup_tolerance attack ≡ ok t) where
  -- An attacker stays with the chain on which it mined more as long as the other one is ahead by less
  -- than the tolerance, in whichever order the two are compared.
  pub attacker_stays :
      (a b : ChainNode)
      → b.ancestors_mined < a.ancestors_mined
      → b.score < a.score + t
      → (max_attacker attack a b ≡ ok true) × (max_attacker attack b a ≡ ok false)
  unfolding max_attacker
  attacker_stays a b more close = ground arith

  -- An attacker leaves the chain on which it mined more once the other one is ahead by more than
  -- the tolerance, in whichever order the two are compared.
  pub attacker_leaves :
      (a b : ChainNode)
      → b.ancestors_mined < a.ancestors_mined
      → a.score + t < b.score
      → (max_attacker attack a b ≡ ok false) × (max_attacker attack b a ≡ ok true)
  unfolding max_attacker
  attacker_leaves a b more ahead = ground arith

  -- With a positive tolerance an attacker's preference runs in circles: three chains, each one ahead
  -- of the next by exactly the tolerance, with fewer ancestors mined and a later arrival.
  pub attacker_cycle :
      (a b c : ChainNode)
      → 0 < t
      → b.ancestors_mined < a.ancestors_mined
      → c.ancestors_mined < b.ancestors_mined
      → b.score ≡ a.score + t
      → c.score ≡ b.score + t
      → a.timestamp < b.timestamp
      → b.timestamp < c.timestamp
      → (max_attacker attack a b ≡ ok true)
        × (max_attacker attack b c ≡ ok true)
        × (max_attacker attack c a ≡ ok true)
  unfolding max_attacker
  attacker_cycle a b c h h1 h2 h3 h4 h5 h6 = (ground arith, ground arith, ground arith)

max_tolerant_returns :
    (attack : AttackConfig) (tolerance : ℕ) (a b : ChainNode)
    → catchup_tolerance attack ≡ ok tolerance
    → (first : Bool) × (max_tolerant attack a b ≡ ok first)
unfolding max_tolerant
max_tolerant_returns attack tolerance a b h = elim (Bool-cases (leb b.score a.score)) [
  | inl behind ↦ (true, ground (arith, behind))
  | inr ahead ↦ rw (ahead, h, ◌>>=◌) (_, refl)
]

-- A node that is no attacker, or that has an attack configured, can compare any two chains.
pub chain_node_max_returns :
    (p : Platform) (g : Globals) (tolerance : ℕ)
    → (is_attacker p g g.current_node ≡ true → catchup_tolerance g.attack_config ≡ ok tolerance)
    → (a b : ChainNode) → (first : Bool) × (chain_node_max p g a b ≡ ok first)
unfolding chain_node_max max_attacker
chain_node_max_returns p g tolerance configured a b =
    elim (Bool-cases (is_attacker p g g.current_node)) [
      | inr honest ↦ (max_honest a b, ground (arith, honest))
      | inl attacks ↦
          let h = configured attacks in
          let (ab, first) = max_tolerant_returns g.attack_config tolerance a b h in
          let (ba, second) = max_tolerant_returns g.attack_config tolerance b a h in
          elim (Bool-cases (a.ancestors_mined == b.ancestors_mined)) [
            | inl same ↦ (max_honest a b, ground (arith, attacks, same))
            | inr apart ↦ elim (Bool-cases (ltb a.ancestors_mined b.ancestors_mined)) [
              | inl fewer ↦
                  (if ba then false else true, ground (arith, attacks, apart, fewer, second))
              | inr more ↦ (ab, ground (arith, attacks, apart, more, first))
            ]
          ]
    ]

-- The fork choice of a node is an order, in which any two chains can be compared.
pub record IsRanking (p : Platform) (g : Globals) : Type 0 where
  pub same : (a : ChainNode) → chain_node_max p g a a ≡ ok true
  pub trans :
      (a b d : ChainNode)
      → chain_node_max p g a b ≡ ok true
      → chain_node_max p g b d ≡ ok true
      → chain_node_max p g a d ≡ ok true
  pub total :
      (a b : ChainNode) → chain_node_max p g a b ≡ ok false → chain_node_max p g b a ≡ ok true

pub honest-IsRanking :
    (p : Platform) (g : Globals) → is_attacker p g g.current_node ≡ false → IsRanking p g
unfolding chain_node_max max_honest
honest-IsRanking p g honest = record {
  same = λ a. ground (arith, honest);
  trans = λ a b d h k. ground (arith, honest, h, k);
  total = λ a b h. ground (arith, honest, h);
}
