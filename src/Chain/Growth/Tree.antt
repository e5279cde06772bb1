-- ===== src/Chain/Growth/Tree.antt =====
-- The shape of the tree that addBlock and initBlockchain of RBlockSim/src/Block.c build.
use rblock_sim_reproducibili.Base.{
  ◌+◌, ◌-◌, ◌*◌, ◌≤◌, ◌<◌, ◌≡◌, ap, subst, ◌∙◌, Bool-cases, inl, inr, true, false, arith,
}
use rblock_sim_reproducibili.Run.{ok}
use rblock_sim_reproducibili.Config.{Constants, u32}
use rblock_sim_reproducibili.Chain.{BlockTree, ChainNode, Ref, same_ref, is_orphan, get_chain_node}
use rblock_sim_reproducibili.Chain.Levels.{IsWindow}
use rblock_sim_reproducibili.Chain.Levels.Nodes.{PutNode, same_ref→eq, same_ref_refl}

module _ (c : Constants) (t : BlockTree) where
  -- The parent of a node that stands at `r`: it is not an orphan, and the score counts from it.
  pub record HasParent (r : Ref) (n : ChainNode) : Type 0 where
    pub above : ChainNode
    pub loads : get_chain_node c t (record { level = r.level - 1; index = n.parent }) ≡ ok above
    pub steady : is_orphan above ≡ false
    pub score : n.score ≡ u32 (above.score + 1)

  -- Every node stands at its own height, no higher than the highest block, and all but the orphans and
  -- the nodes of the lowest level have their parent one level below.
  pub record IsTree : Type 0 where
    pub window : IsWindow c t
    pub top : t.max_height < t.min_height + 2 * c.depth_to_keep
    pub stands : (r : Ref) (n : ChainNode) → get_chain_node c t r ≡ ok n → n.height ≡ r.level
    pub below_top : (r : Ref) (n : ChainNode) → get_chain_node c t r ≡ ok n → r.level ≤ t.max_height
    pub parents :
        (r : Ref) (n : ChainNode)
        → get_chain_node c t r ≡ ok n
        → is_orphan n ≡ false
        → t.min_height < r.level
        → HasParent r n

module _ (c : Constants) (t : BlockTree) (r : Ref) (m : ChainNode) (t' : BlockTree)
    (put : PutNode c t r m t') where
  pub read_put : get_chain_node c t' r ≡ ok m
  read_put = ground (arith, put.reads r, same_ref_refl r)

  -- A write in place of an orphan, or where no node was, keeps the nodes that are not orphans.
  pub put-keeps :
      ((n : ChainNode) → get_chain_node c t r ≡ ok n → is_orphan n ≡ true)
      → (q : Ref) (n : ChainNode) → get_chain_node c t q ≡ ok n
      → is_orphan n ≡ false
      → get_chain_node c t' q ≡ ok n
  put-keeps free q n loads steady = elim (Bool-cases (same_ref r q)) [
    | inl same ↦
        let e : r ≡ q = same_ref→eq r q same in
        absurd (ground (arith, free n (ap (get_chain_node c t) e ∙ loads), steady))
    | inr apart ↦ ground (arith, put.reads q, apart, loads)
  ]

  pub HasParent-kept :
      ((n : ChainNode) → get_chain_node c t r ≡ ok n → is_orphan n ≡ true)
      → (q : Ref) (n : ChainNode) → HasParent c t q n
      → HasParent c t' q n
  HasParent-kept free q n h = record {
    above = h.above;
    loads =
        put-keeps free (record { level = q.level - 1; index = n.parent }) h.above h.loads h.steady;
    steady = h.steady;
    score = h.score;
  }

  -- Such a write keeps the tree, when the new node is an orphan or has a parent.
  pub put-IsTree :
      ((n : ChainNode) → get_chain_node c t r ≡ ok n → is_orphan n ≡ true)
      → IsTree c t
      → m.height ≡ r.level
      → r.level ≤ t.max_height
      → (is_orphan m ≡ false → HasParent c t r m)
      → IsTree c t'
  put-IsTree free tree stands low parent = record {
    window = put.window;
    top = omega (arith, put.min_height, put.max_height, tree.top);
    stands = λ q n loads. elim (Bool-cases (same_ref r q)) [
      | inl same ↦ ground (arith, put.reads q, same, loads, same_ref→eq r q same)
      | inr apart ↦ tree.stands q n (ground (arith, put.reads q, apart, loads))
    ];
    below_top = λ q n loads. elim (Bool-cases (same_ref r q)) [
      | inl same ↦ ground (arith, put.max_height, same_ref→eq r q same)
      | inr apart ↦
          ground
            (arith, put.max_height, tree.below_top q n (ground (arith, put.reads q, apart, loads)))
    ];
    parents = λ q n loads steady above. elim (Bool-cases (same_ref r q)) [
      | inl same ↦
          let e : m ≡ n = ground (arith, put.reads q, same, loads) in
          let f : r ≡ q = same_ref→eq r q same in
          let at_r = HasParent-kept free r m (parent (ground (arith, e, steady))) in
          subst (λ x. HasParent c t' x n) f (subst (HasParent c t' r) e at_r)
      | inr apart ↦ HasParent-kept free q n (
          tree.parents q n (ground (arith, put.reads q, apart, loads)) steady
            (omega (arith, put.min_height)))
    ];
  }
