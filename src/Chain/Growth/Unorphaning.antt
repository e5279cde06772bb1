-- ===== src/Chain/Growth/Unorphaning.antt =====
-- The loop and the recursion of unorphanBlocks of RBlockSim/src/Block.c.
use rblock_sim_reproducibili.Base.{
  ℕ, zero, suc, ◌+◌, ◌≤◌, ◌<◌, ◌≡◌, refl, subst, ◌∙◌, Bool-cases, inl, inr, some, none, Bool, true,
  ◌&&◌, arith, ltb, ◌==◌, length, Option,
}
use rblock_sim_reproducibili.Run.{Run, ok, ◌>>=◌}
use rblock_sim_reproducibili.Platform.{Platform}
use rblock_sim_reproducibili.Config.{Constants, Globals}
use rblock_sim_reproducibili.Chain.{BlockTree, ChainNode, Ref, is_orphan}
use rblock_sim_reproducibili.Chain.ForkChoice.{chain_node_max}
use rblock_sim_reproducibili.Chain.Levels.{get_chain_level_total}
use rblock_sim_reproducibili.Chain.Levels.Nodes.{level_size}
use rblock_sim_reproducibili.Chain.Growth.{unorphan_loop, unorphan_blocks}
use rblock_sim_reproducibili.Chain.Growth.Tree.{IsTree}
use rblock_sim_reproducibili.Chain.Growth.Grown.{
  Steady-kept, Steady, size_node, node_size, Grown-refl, Grown-trans, Descends, Descends-kept,
}
use rblock_sim_reproducibili.Chain.Growth.Adoption.{
  some-inj, AtLeast-refl, Steady-inside, Descends-append, Adopted, prefer_new-Descends,
  prefer_aux-Descends,
}
use rblock_sim_reproducibili.Chain.Growth.Rounds.{
  climbed, round_greatest, child, DoneTo-kept, DoneTo-suc, Adopted-before, adopt, linked_between,
  unchanged, Round,
}

module _ (c : Constants) (p : Platform) (g : Globals)
    (prefers : (a b : ChainNode) → (first : Bool) × (chain_node_max p g a b ≡ ok first))
    (parent : Ref) (above : ChainNode) where
  module _ (descend : BlockTree → Ref → ℕ → Run (BlockTree × Option Ref)) (top : ℕ)
      (descends : (t : BlockTree) (r : Ref)
        → IsTree c t
        → Steady c t r
        → r.level ≡ parent.level + 1
        → t.max_height ≡ top
        → Adopted c p g t r none (descend t r (parent.level + 1 + 1))) where
    pub unorphan_loop-Adopted :
        (rounds i : ℕ) (t : BlockTree) (best : Option Ref)
        → t.max_height ≡ top
        → Round c p g parent above t i rounds best
        → Adopted c p g t parent best
            (unorphan_loop c p g descend parent (parent.level + 1) rounds i t best)
    unfolding unorphan_loop
    unorphan_loop-Adopted zero i t best high s = record {
      tree = t;
      best = best;
      returns = refl;
      grown = Grown-refl c t s.tree;
      heir = s.heir;
      served = λ x r n at_parent loads next same.
          let sized : level_size c t r.level ≡ ok i = ground (arith, s.size, next) in
          s.done r n loads next (node_size c t r i n sized loads)
            (ground (arith, same, at_parent, s.loads));
      all_served = λ q n loads waits steady.
          absurd (ground (arith, loads, waits, steady.loads, steady.steady));
      lower = λ q steady low. steady;
      over = λ rank b e. (b, e, AtLeast-refl c p g prefers t b rank);
      greatest = λ rank q steady. inl steady;
    }
    unorphan_loop-Adopted (suc rounds) i t best high s =
        let (n, loads) =
          size_node c t (child c p g parent above i) (i + suc rounds) s.size (omega arith) in
        elim (Bool-cases (is_orphan n && n.parent == above.miner)) [
          | inr other ↦
              let next : Round c p g parent above t (i + 1) rounds best = record {
                tree = s.tree;
                loads = s.loads;
                steady = s.steady;
                size = ground (arith, s.size);
                heir = s.heir;
                done =
                    DoneTo-suc c p g parent above t i n s.done loads
                      (λ same. ground (arith, other, same));
              } in
              rw (loads, ◌>>=◌)
                (rw (s.loads, ◌>>=◌)
                  (rw other (unorphan_loop-Adopted rounds (i + 1) t best high next)))
          | inl match ↦
              let waits : is_orphan n ≡ true = ground (arith, match) in
              let (u, put, grown, child_descends, others) =
                adopt c p g parent above t i (suc rounds) best n s loads waits in
              let low : t.min_height ≤ parent.level =
                (Steady-inside c t parent s.tree
                  (record { node = above; loads = s.loads; steady = s.steady })).0 in
              let (b1, first, d1, won1) =
                prefer_new-Descends c p g prefers u best (child c p g parent above i) parent
                  (λ b e. Descends-kept c t u b parent grown s.tree low (s.heir b e))
                  child_descends in
              let a =
                descends u (child c p g parent above i) grown.tree child_descends.top refl
                  (grown.max_height ∙ high) in
              let v = a.tree in
              let low' : u.min_height ≤ parent.level = omega (arith, grown.min_height, low) in
              let child_kept =
                Descends-kept c u v (child c p g parent above i) parent a.grown grown.tree low'
                  child_descends in
              let (b2, second, d2, won2) =
                prefer_aux-Descends c p g prefers v b1 a.best parent
                  (Descends-kept c u v b1 parent a.grown grown.tree low' d1)
                  (λ b e.
                    Descends-append c v b (child c p g parent above i) parent (a.heir b e)
                      child_kept) in
              let whole = Grown-trans c t u v grown a.grown in
              let next : Round c p g parent above v (i + 1) rounds (some b2) = record {
                tree = whole.tree;
                loads = whole.kept parent above s.loads s.steady;
                steady = s.steady;
                size = ground (arith, whole.sizes (parent.level + 1), s.size);
                heir = λ b e. subst (λ x. Descends c v x parent) (some-inj b2 b e) d2;
                done =
                    DoneTo-suc c p g parent above v i child_kept.top.node
                      (DoneTo-kept c p g parent above t v i whole s.done) child_kept.top.loads
                      (λ same. child_kept.top.steady);
              } in
              let rest =
                unorphan_loop-Adopted rounds (i + 1) v (some b2) (whole.max_height ∙ high) next in
              rw (loads, ◌>>=◌)
                (rw (s.loads, ◌>>=◌)
                  (rw (match, put, ◌>>=◌)
                    (rw (first, ◌>>=◌)
                      (rw (a.returns, ◌>>=◌)
                        (rw (second, ◌>>=◌)
                          (Adopted-before c p g parent above t v best (some b2) _ whole
                            (linked_between c p g parent above t u (child c p g parent above i)
                              others grown a)
                            (λ q steady low.
                              unchanged c p g parent above t u i others q
                                (a.lower q steady (omega arith)) low)
                            rest
                            (λ rank b e.
                              climbed c p g parent above rank u i a b1 b2 d1.top d2.top
                                (won2 rank).0 rest b (Steady-kept c t u b grown (s.heir b e).top)
                                ((won1 rank).0 b e))
                            (λ rank.
                              round_greatest c p g parent above rank u i a b1 b2 d1.top d2.top
                                (won2 rank).0 rest t others child_descends.top (won1 rank).1
                                (λ b e. ((a.heir b e).top, (won2 rank).1 b e)))))))))
        ]

module _ (c : Constants) (p : Platform) (g : Globals)
    (prefers : (a b : ChainNode) → (first : Bool) × (chain_node_max p g a b ≡ ok first)) where
  -- Each call of itself looks one level higher, so fuel up to the highest block is enough, and
  -- `unorphanBlocks` always returns. It links every orphan whose parent is the given node or a node
  -- that it links, keeps all other nodes and the shape of the tree, and the node that it returns has the
  -- given node for an ancestor and, where the fork choice is an order, is preferred to every node that
  -- it links. Assumes that the comparison of two chains returns.
  pub unorphan_blocks-Adopted :
      (f : ℕ) (t : BlockTree) (parent : Ref)
      → IsTree c t
      → Steady c t parent
      → t.max_height + 2 ≤ f + (parent.level + 1)
      → 0 < f
      → Adopted c p g t parent none (unorphan_blocks c p g f t parent (parent.level + 1))
  unfolding unorphan_blocks level_size
  unorphan_blocks-Adopted zero t parent tree s fuel positive = absurd (omega arith)
  unorphan_blocks-Adopted (suc f) t parent tree s fuel positive =
      elim (Bool-cases (ltb t.max_height (parent.level + 1))) [
        | inl high ↦
            rw (high, unorphan_blocks)
              (record {
                tree = t;
                best = none;
                returns = refl;
                grown = Grown-refl c t tree;
                heir = λ b e. absurd (ground (arith, e));
                served = λ above r n at_parent loads next same.
                    absurd (ground (arith, tree.below_top r n loads, high, next));
                all_served = λ q n loads waits steady.
                    absurd (ground (arith, loads, waits, steady.loads, steady.steady));
                lower = λ q steady low. steady;
                over = λ rank b e. absurd (ground (arith, e));
                greatest = λ rank q steady. inl steady;
              })
        | inr low ↦
            let inside = Steady-inside c t parent tree s in
            let (l, level) =
              get_chain_level_total c t (parent.level + 1) tree.window
                (omega (arith, inside), ground (arith, low, tree.top)) in
            let start : Round c p g parent s.node t 0 (length l.nodes) none = record {
              tree = tree;
              loads = s.loads;
              steady = s.steady;
              size = ground (arith, level);
              heir = λ b e. absurd (ground (arith, e));
              done = λ r n loads next short same. absurd (omega arith);
            } in
            rw (low, unorphan_blocks)
              (rw (level, ◌>>=◌)
                (unorphan_loop-Adopted c p g prefers parent s.node (unorphan_blocks c p g f)
                  t.max_height
                  (λ u r shape steady next high.
                    subst (λ h. Adopted c p g u r none (unorphan_blocks c p g f u r (h + 1))) next
                      (unorphan_blocks-Adopted f u r shape steady (ground (arith, low))
                        (ground (arith, low))))
                  (length l.nodes) 0 t none refl start))
      ]
