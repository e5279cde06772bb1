-- ===== src/Chain/Growth/Marks.antt =====
-- The write of generateBlock (RBlockSim/src/Block.c) to a node of the tree, which counts it as mined.
use rblock_sim_reproducibili.Base.{◌-◌, ◌≡◌, refl, ap, sym, subst, ◌∙◌, Bool-cases, inl, inr, arith}
use rblock_sim_reproducibili.Run.{ok}
use rblock_sim_reproducibili.Config.{Constants}
use rblock_sim_reproducibili.Chain.{BlockTree, ChainNode, Ref, same_ref, is_orphan, get_chain_node}
use rblock_sim_reproducibili.Chain.Levels.Nodes.{PutNode, same_ref→eq}
use rblock_sim_reproducibili.Chain.Growth.Tree.{IsTree}
use rblock_sim_reproducibili.Chain.Growth.Grown.{Steady}
use rblock_sim_reproducibili.Chain.Growth.Waiting.{IsComplete, IsFirst}

-- Nodes that differ at most in their data, their time and their count of mined ancestors.
pub record IsAlike (a b : ChainNode) : Type 0 where
  pub parent : a.parent ≡ b.parent
  pub miner : a.miner ≡ b.miner
  pub height : a.height ≡ b.height
  pub score : a.score ≡ b.score
  pub flags : a.flags ≡ b.flags

IsAlike-refl : (a : ChainNode) → IsAlike a a
IsAlike-refl a = record { parent = refl; miner = refl; height = refl; score = refl; flags = refl }

IsAlike-is_orphan : (a b : ChainNode) → IsAlike a b → is_orphan a ≡ is_orphan b
unfolding is_orphan
IsAlike-is_orphan a b h = ground (arith, h.flags)

module _ (c : Constants) (t : BlockTree) (r : Ref) (old m : ChainNode) (t' : BlockTree)
    (put : PutNode c t r m t') (held : get_chain_node c t r ≡ ok old) (alike : IsAlike old m) where
  marked_back :
      (q : Ref) (y : ChainNode)
      → get_chain_node c t' q ≡ ok y
      → (x : ChainNode) × (get_chain_node c t q ≡ ok x) × IsAlike x y
  marked_back q y loads = elim (Bool-cases (same_ref r q)) [
    | inl same ↦
        let e : m ≡ y = ground (arith, put.reads q, same, loads) in
        (
          old,
          sym (ap (get_chain_node c t) (same_ref→eq r q same)) ∙ held,
          subst (IsAlike old) e alike,
        )
    | inr apart ↦ (y, ground (arith, put.reads q, apart, loads), IsAlike-refl y)
  ]

  marked_forth :
      (q : Ref) (x : ChainNode)
      → get_chain_node c t q ≡ ok x
      → (y : ChainNode) × (get_chain_node c t' q ≡ ok y) × IsAlike x y
  marked_forth q x loads = elim (Bool-cases (same_ref r q)) [
    | inl same ↦
        let e : old ≡ x =
          ground (arith, ap (get_chain_node c t) (same_ref→eq r q same), held, loads) in
        (m, ground (arith, put.reads q, same), subst (λ z. IsAlike z m) e alike)
    | inr apart ↦ (x, ground (arith, put.reads q, apart, loads), IsAlike-refl x)
  ]

  pub mark-IsTree : IsTree c t → IsTree c t'
  mark-IsTree tree = record {
    window = put.window;
    top = omega (arith, put.min_height, put.max_height, tree.top);
    stands = λ q y loads.
        let (x, before, a) = marked_back q y loads in
        ground (arith, a.height, tree.stands q x before);
    below_top = λ q y loads.
        let (x, before, a) = marked_back q y loads in
        omega (arith, put.max_height, tree.below_top q x before);
    parents = λ q y loads steady low.
        let (x, before, a) = marked_back q y loads in
        let h =
          tree.parents q x before (IsAlike-is_orphan x y a ∙ steady)
            (omega (arith, put.min_height)) in
        let (above, found, b) =
          marked_forth (record { level = q.level - 1; index = x.parent }) h.above h.loads in
        record {
          above = above;
          loads =
              sym
                (ap (λ i. get_chain_node c t' (record { level = q.level - 1; index = i })) a.parent)
              ∙ found;
          steady = sym (IsAlike-is_orphan h.above above b) ∙ h.steady;
          score = ground (arith, a.score, b.score, h.score);
        };
  }

  pub mark-IsComplete : IsComplete c t → IsComplete c t'
  mark-IsComplete h = record {
    serves = λ q s first above x n at_q loads next same.
        let (s', before, a) = marked_back q s.node s.loads in
        let old_steady : Steady c t q = record {
          node = s';
          loads = before;
          steady = IsAlike-is_orphan s' s.node a ∙ s.steady;
        } in
        let old_first : IsFirst c t q s' = λ j y short at.
          let (y', at', b) = marked_forth (record { level = q.level; index = j }) y at in
          ground (arith, a.miner, b.miner, first j y' short at') in
        let (above', at_q', e) = marked_back q above at_q in
        let (n', loads', d) = marked_back x n loads in
        sym (IsAlike-is_orphan n' n d)
        ∙ h.serves q old_steady old_first above' x n' at_q' loads' next
            (d.parent ∙ same ∙ sym e.miner);
  }
