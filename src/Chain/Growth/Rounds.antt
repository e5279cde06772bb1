-- ===== src/Chain/Growth/Rounds.antt =====
-- One round of the loop of unorphanBlocks of RBlockSim/src/Block.c: the child that it links and what
-- the search above that child leaves.
use rblock_sim_reproducibili.Base.{
  some, none, ℕ, ◌+◌, ◌≤◌, ◌<◌, ◌≡◌, refl, ap, sym, subst, ◌∙◌, ◌⊎◌, Bool-cases, inl, inr, some,
  true, false, arith, ◌==◌, [], Option,
}
use rblock_sim_reproducibili.Platform.{Platform}
use rblock_sim_reproducibili.Chain.ForkChoice.Order.{IsRanking}
use rblock_sim_reproducibili.Run.{Run, ok}
use rblock_sim_reproducibili.Config.{Constants, Globals}
use rblock_sim_reproducibili.Chain.{
  BlockTree, ChainNode, Ref, is_orphan, un_orphan, get_chain_node, put_chain_node,
}
use rblock_sim_reproducibili.Chain.Levels.Nodes.{level_size}
use rblock_sim_reproducibili.Chain.Switch.Paths.{here}
use rblock_sim_reproducibili.Chain.Growth.{linked}
use rblock_sim_reproducibili.Chain.Growth.Tree.{IsTree, HasParent}
use rblock_sim_reproducibili.Chain.Growth.Grown.{
  Steady-kept, Steady, node_stays, Grown, Grown-trans, put-Grown, Descends, Descends-up,
}
use rblock_sim_reproducibili.Chain.Growth.Adoption.{
  AtLeast, AtLeast-kept, AtLeast-trans, Overtakes, Overtakes-trans, Served, Served-kept, Adopted,
}

module _ (c : Constants) (p : Platform) (g : Globals) (parent : Ref) (above : ChainNode) where
  abbrev pub child : ℕ → Ref
  child i = record { level = parent.level + 1; index = i }

  -- The children before place `i` that have this parent are linked.
  abbrev pub DoneTo : BlockTree → ℕ → Type 0
  DoneTo t i =
      (r : Ref) (n : ChainNode)
      → get_chain_node c t r ≡ ok n
      → r.level ≡ parent.level + 1
      → r.index < i
      → n.parent ≡ above.miner
      → is_orphan n ≡ false

  pub DoneTo-kept : (t t' : BlockTree) (i : ℕ) → Grown c t t' → DoneTo t i → DoneTo t' i
  DoneTo-kept t t' i grown done r n loads next short same = elim (Bool-cases (is_orphan n)) [
    | inl waits ↦ done r n (grown.waiting r n loads waits) next short same
    | inr steady ↦ steady
  ]

  -- One more place, whose node is not an orphan of this parent.
  pub DoneTo-suc :
      (t : BlockTree) (i : ℕ) (n : ChainNode)
      → DoneTo t i
      → get_chain_node c t (child i) ≡ ok n
      → (n.parent ≡ above.miner → is_orphan n ≡ false)
      → DoneTo t (i + 1)
  DoneTo-suc t i n done loads linked' r m found next short same = elim (Bool-cases (r.index == i)) [
    | inl e ↦
        let place : r ≡ child i = ground (arith, e, next) in
        let eq : m ≡ n = ground (arith, ap (get_chain_node c t) place, found, loads) in
        ground (arith, eq, linked' (ground (arith, eq, same)))
    | inr apart ↦ done r m found next (ground (arith, apart, short)) same
  ]

  -- What is true of the tree before each round.
  pub record Round (t : BlockTree) (i rounds : ℕ) (best : Option Ref) : Type 0 where
    pub tree : IsTree c t
    pub loads : get_chain_node c t parent ≡ ok above
    pub steady : is_orphan above ≡ false
    pub size : level_size c t (parent.level + 1) ≡ ok (i + rounds)
    pub heir : (b : Ref) → best ≡ some b → Descends c t b parent
    pub done : DoneTo t i

  -- Adoption from a grown tree is adoption from the tree before, when what was linked meanwhile is served.
  pub Adopted-before :
      (t u : BlockTree) (start mid : Option Ref) (r : Run (BlockTree × Option Ref))
      → Grown c t u
      → ((q : Ref) (n : ChainNode)
          → get_chain_node c t q ≡ ok n
          → is_orphan n ≡ true
          → (get_chain_node c u q ≡ ok n) ⊎ (Steady c u q × Served c u q))
      → ((q : Ref) → Steady c u q → q.level ≤ parent.level → Steady c t q)
      → (a : Adopted c p g u parent mid r)
      → (IsRanking p g → (b : Ref) → start ≡ some b → Overtakes c p g a.tree a.best b)
      → (IsRanking p g
          → (q : Ref) → Steady c a.tree q
          → Steady c t q ⊎ Overtakes c p g a.tree a.best q)
      → Adopted c p g t parent start r
  Adopted-before t u start mid r grown between lower a over greatest = record {
    tree = a.tree;
    best = a.best;
    returns = a.returns;
    grown = Grown-trans c t u a.tree grown a.grown;
    heir = a.heir;
    served = a.served;
    all_served = λ q n loads waits steady. elim (between q n loads waits) [
      | inl still ↦ a.all_served q n still waits steady
      | inr linked' ↦ Served-kept c u a.tree q a.grown linked'.0 linked'.1
    ];
    lower = λ q steady low. lower q (a.lower q steady low) low;
    over = over;
    greatest = greatest;
  }

  -- Linking the orphan at place `i`.
  pub adopt :
      (t : BlockTree) (i rounds : ℕ) (best : Option Ref) (n : ChainNode)
      → Round t i rounds best
      → get_chain_node c t (child i) ≡ ok n
      → is_orphan n ≡ true
      → (u : BlockTree) × (put_chain_node c t (child i) (un_orphan (linked above parent.index n))
          ≡ ok u)
        × Grown c t u
        × Descends c u (child i) parent
        × ((q : Ref) → (child i ≡ q) ⊎ (get_chain_node c u q ≡ get_chain_node c t q))
  unfolding un_orphan is_orphan
  adopt t i rounds best n s loads waits =
      let m = un_orphan (linked above parent.index n) in
      let stands = s.tree.stands (child i) n loads in
      let link : HasParent c t (child i) m = record {
        above = above;
        loads = ground (arith, s.loads);
        steady = s.steady;
        score = refl;
      } in
      let (u, done, grown, held, others) =
        put-Grown c t (child i) n m s.tree loads waits refl refl refl link in
      let kept : Steady c u parent = record {
        node = above;
        loads = grown.kept parent above s.loads s.steady;
        steady = s.steady;
      } in
      (
        u,
        done,
        grown,
        Descends-up c u (child i) parent parent m held refl stands (omega arith)
            (ground (arith, stands)) (record { top = kept; blocks = []; path = here }),
        others,
      )

  -- What a round links: the child, and what its own search links.
  pub linked_between :
      (t u : BlockTree) (r : Ref)
      → ((q : Ref) → (r ≡ q) ⊎ (get_chain_node c u q ≡ get_chain_node c t q))
      → Grown c t u
      → {run : Run (BlockTree × Option Ref)} (a : Adopted c p g u r none run) (q : Ref)
        (n : ChainNode)
      → get_chain_node c t q ≡ ok n
      → is_orphan n ≡ true
      → (get_chain_node c a.tree q ≡ ok n) ⊎ (Steady c a.tree q × Served c a.tree q)
  linked_between t u r others grown a q n loads waits =
      let whole = Grown-trans c t u a.tree grown a.grown in
      let (m, held) = node_stays c t a.tree q n whole loads in
      elim (Bool-cases (is_orphan m)) [
        | inl still ↦ inl (ground (arith, held, whole.waiting q m held still, loads))
        | inr steady ↦
            let s : Steady c a.tree q = record { node = m; loads = held; steady = steady } in
            inr (
              s,
              elim (others q) [
                | inl e ↦ subst (Served c a.tree) e a.served
                | inr same ↦ a.all_served q n (same ∙ loads) waits s
              ],
            )
      ]

  -- A round writes nothing at the height of the parent or below.
  pub unchanged :
      (t u : BlockTree) (i : ℕ)
      → ((q : Ref) → (child i ≡ q) ⊎ (get_chain_node c u q ≡ get_chain_node c t q))
      → (q : Ref) → Steady c u q
      → q.level ≤ parent.level
      → Steady c t q
  unchanged t u i others q s low = elim (others q) [
    | inl e ↦ absurd (omega (arith, ap (λ (x : Ref). x.level) e))
    | inr same ↦ record { node = s.node; loads = sym same ∙ s.loads; steady = s.steady }
  ]

  -- The best node after a round, with the children that are left, against the nodes linked so far.
  module _ (rank : IsRanking p g) (u : BlockTree) (i : ℕ) {found : Run (BlockTree × Option Ref)}
      (a : Adopted c p g u (child i) none found) (b1 b2 : Ref) (top1 : Steady c u b1)
      (top2 : Steady c a.tree b2) (over1 : AtLeast c p g a.tree b2 b1)
      {left : Run (BlockTree × Option Ref)}
      (rest : Adopted c p g a.tree parent (some b2) left) where
    -- What the best node after the round overtakes, the best node in the end does.
    passed_on :
        (y : Ref)
        → Steady c a.tree y
        → AtLeast c p g a.tree b2 y
        → Overtakes c p g rest.tree rest.best y
    passed_on y s h =
        Overtakes-trans c p g a.tree rest.tree rest.best b2 y rank rest.grown top2 s h
          (rest.over rank b2 refl)

    pub climbed :
        (y : Ref) → Steady c u y → AtLeast c p g u b1 y → Overtakes c p g rest.tree rest.best y
    climbed y s h = passed_on y (Steady-kept c u a.tree y a.grown s) (
        AtLeast-trans c p g a.tree b2 b1 y rank (Steady-kept c u a.tree b1 a.grown top1) over1
          (AtLeast-kept c p g u a.tree b1 y a.grown top1 s h))

    pub round_greatest :
        (t : BlockTree)
        → ((q : Ref) → (child i ≡ q) ⊎ (get_chain_node c u q ≡ get_chain_node c t q))
        → Steady c u (child i)
        → AtLeast c p g u b1 (child i)
        → ((b : Ref) → a.best ≡ some b → Steady c a.tree b × AtLeast c p g a.tree b2 b)
        → (q : Ref) → Steady c rest.tree q
        → Steady c t q ⊎ Overtakes c p g rest.tree rest.best q
    round_greatest t others x h above2 q s = elim (rest.greatest rank q s) [
      | inr over ↦ inr over
      | inl before ↦ elim (a.greatest rank q before) [
        | inr (b, chosen, over) ↦
            let (top, less) = above2 b chosen in
            inr (passed_on q before (AtLeast-trans c p g a.tree b2 b q rank top less over))
        | inl linked' ↦ elim (others q) [
          | inl e ↦ inr (subst (Overtakes c p g rest.tree rest.best) e (climbed (child i) x h))
          | inr same ↦ inl (record {
            node = linked'.node;
            loads = sym same ∙ linked'.loads;
            steady = linked'.steady;
          })
        ]
      ]
    ]
