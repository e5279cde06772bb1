-- ===== src/Chain/Growth/Grown.antt =====
-- What unorphanBlocks of RBlockSim/src/Block.c leaves of the tree: how a tree grows when orphans are
-- linked to their parents.
use rblock_sim_reproducibili.Base.{
  ℕ, ◌-◌, ◌≤◌, ◌<◌, ◌≡◌, refl, ap, sym, subst, ◌∙◌, ◌⊎◌, Bool-cases, inl, inr, true, false, arith,
  ltb, List, ◌∷◌, length, get_elem?, get_elem?_inside, get_elem?_outside,
}
use rblock_sim_reproducibili.Run.{ok, deref, bind_returned}
use rblock_sim_reproducibili.Config.{Constants}
use rblock_sim_reproducibili.Chain.{
  BlockTree, ChainNode, Ref, same_ref, is_orphan, get_chain_node, get_chain_level, get_parent_ref,
  put_chain_node,
}
use rblock_sim_reproducibili.Chain.Levels.Nodes.{put_chain_node-PutNode, level_size, same_ref→eq}
use rblock_sim_reproducibili.Chain.Switch.Paths.{Branch, here, up, parent_of, Branch-level}
use rblock_sim_reproducibili.Chain.Growth.Tree.{IsTree, HasParent, put-IsTree, put-keeps, read_put}

module _ (c : Constants) where
  -- The pointer leads to a node that is no orphan.
  pub record Steady (t : BlockTree) (r : Ref) : Type 0 where
    pub node : ChainNode
    pub loads : get_chain_node c t r ≡ ok node
    pub steady : is_orphan node ≡ false

  -- `t'` is `t` with some of its orphans linked.
  pub record Grown (t t' : BlockTree) : Type 0 where
    pub tree : IsTree c t'
    pub min_height : t'.min_height ≡ t.min_height
    pub max_height : t'.max_height ≡ t.max_height
    pub kept :
        (r : Ref) (n : ChainNode)
        → get_chain_node c t r ≡ ok n
        → is_orphan n ≡ false
        → get_chain_node c t' r ≡ ok n
    pub waiting :
        (r : Ref) (n : ChainNode)
        → get_chain_node c t' r ≡ ok n
        → is_orphan n ≡ true
        → get_chain_node c t r ≡ ok n
    pub miners :
        (r : Ref) (n m : ChainNode)
        → get_chain_node c t r ≡ ok n
        → get_chain_node c t' r ≡ ok m
        → m.miner ≡ n.miner
    pub sizes : (k : ℕ) → level_size c t' k ≡ level_size c t k

  pub Grown-refl : (t : BlockTree) → IsTree c t → Grown t t
  Grown-refl t tree = record {
    tree = tree;
    min_height = refl;
    max_height = refl;
    kept = λ r n loads steady. loads;
    waiting = λ r n loads waits. loads;
    miners = λ r n m loads loads'. ground (arith, loads, loads');
    sizes = λ k. refl;
  }

  -- The places of a level that hold nodes.
  pub size_node :
      (t : BlockTree) (r : Ref) (size : ℕ)
      → level_size c t r.level ≡ ok size
      → r.index < size
      → (n : ChainNode) × (get_chain_node c t r ≡ ok n)
  unfolding get_chain_node level_size
  size_node t r size sized short =
      let (l, level, found) =
        bind_returned (get_chain_level c t r.level) (λ l. ok (length l.nodes)) sized in
      let (n, held) = get_elem?_inside l.nodes r.index (ground (arith, found)) in
      (n, ground (arith, level, held))

  pub node_size :
      (t : BlockTree) (r : Ref) (size : ℕ) (n : ChainNode)
      → level_size c t r.level ≡ ok size
      → get_chain_node c t r ≡ ok n
      → r.index < size
  unfolding get_chain_node level_size
  node_size t r size n sized loads =
      let (l, level, found) =
        bind_returned (get_chain_level c t r.level) (λ l. deref (get_elem? l.nodes r.index))
          loads in
      elim (Bool-cases (ltb r.index size)) [
        | inl short ↦ ground arith
        | inr long ↦ absurd (
            ground (arith, level, found, get_elem?_outside l.nodes r.index (ground (arith, level))))
      ]

  size_read :
      (t : BlockTree) (r : Ref) (n : ChainNode)
      → get_chain_node c t r ≡ ok n
      → (size : ℕ) × (level_size c t r.level ≡ ok size)
  unfolding get_chain_node level_size
  size_read t r n loads =
      let (l, level, found) =
        bind_returned (get_chain_level c t r.level) (λ l. deref (get_elem? l.nodes r.index))
          loads in
      (length l.nodes, ground (arith, level))

  -- A place that holds a node holds one in the grown tree.
  pub node_stays :
      (t t' : BlockTree) (r : Ref) (n : ChainNode)
      → Grown t t'
      → get_chain_node c t r ≡ ok n
      → (m : ChainNode) × (get_chain_node c t' r ≡ ok m)
  node_stays t t' r n g loads =
      let (size, sized) = size_read t r n loads in
      size_node t' r size (g.sizes r.level ∙ sized) (node_size t r size n sized loads)

  -- A place that holds a node in the grown tree held one before.
  pub node_came :
      (t t' : BlockTree) (r : Ref) (n : ChainNode)
      → Grown t t'
      → get_chain_node c t' r ≡ ok n
      → (m : ChainNode) × (get_chain_node c t r ≡ ok m)
  node_came t t' r n g loads =
      let (size, sized) = size_read t' r n loads in
      size_node t r size (sym (g.sizes r.level) ∙ sized) (node_size t' r size n sized loads)

  pub Grown-trans : (t u v : BlockTree) → Grown t u → Grown u v → Grown t v
  Grown-trans t u v a b = record {
    tree = b.tree;
    min_height = b.min_height ∙ a.min_height;
    max_height = b.max_height ∙ a.max_height;
    kept = λ r n loads steady. b.kept r n (a.kept r n loads steady) steady;
    waiting = λ r n loads waits. a.waiting r n (b.waiting r n loads waits) waits;
    miners = λ r n m loads loads'.
        let (x, found) = node_stays t u r n a loads in
        b.miners r x m found loads' ∙ a.miners r n x loads found;
    sizes = λ k. b.sizes k ∙ a.sizes k;
  }

  pub Steady-kept : (t t' : BlockTree) (r : Ref) → Grown t t' → Steady t r → Steady t' r
  Steady-kept t t' r g s = record {
    node = s.node;
    loads = g.kept r s.node s.loads s.steady;
    steady = s.steady;
  }

  -- Linking an orphan to a parent grows the tree.
  pub put-Grown :
      (t : BlockTree) (r : Ref) (n m : ChainNode)
      → IsTree c t
      → get_chain_node c t r ≡ ok n
      → is_orphan n ≡ true
      → m.height ≡ n.height
      → m.miner ≡ n.miner
      → is_orphan m ≡ false
      → HasParent c t r m
      → (t' : BlockTree) × (put_chain_node c t r m ≡ ok t')
        × Grown t t'
        × (get_chain_node c t' r ≡ ok m)
        × ((q : Ref) → (r ≡ q) ⊎ (get_chain_node c t' q ≡ get_chain_node c t q))
  put-Grown t r n m tree loads waits stands same_miner steady parent =
      let (t', done, put, sizes) = put_chain_node-PutNode c t r n m tree.window loads in
      let free : ((x : ChainNode) → get_chain_node c t r ≡ ok x → is_orphan x ≡ true) =
        λ x found. ground (arith, found, loads, waits) in
      (
        t',
        done,
        record {
          tree =
              put-IsTree c t r m t' put free tree (stands ∙ tree.stands r n loads)
                (tree.below_top r n loads) (λ s. parent);
          min_height = put.min_height;
          max_height = put.max_height;
          kept = put-keeps c t r m t' put free;
          waiting = λ q x found stays. elim (Bool-cases (same_ref r q)) [
            | inl same ↦ absurd (ground (arith, put.reads q, same, found, stays, steady))
            | inr apart ↦ ground (arith, put.reads q, apart, found)
          ];
          miners = λ q x y found found'. elim (Bool-cases (same_ref r q)) [
            | inl same ↦
                let e = ap (get_chain_node c t) (same_ref→eq r q same) in
                ground (arith, put.reads q, same, found, found', e, loads, same_miner)
            | inr apart ↦ ground (arith, put.reads q, apart, found, found')
          ];
          sizes = sizes;
        },
        read_put c t r m t' put,
        λ q. elim (Bool-cases (same_ref r q)) [
          | inl same ↦ inl (same_ref→eq r q same)
          | inr apart ↦ inr (ground (arith, put.reads q, apart))
        ],
      )

  get_parent_ref-ok :
      (t : BlockTree) (n above : ChainNode)
      → 0 < n.height
      → get_chain_node c t (parent_of n) ≡ ok above
      → get_parent_ref c t n ≡ ok (parent_of n)
  unfolding get_chain_node get_parent_ref
  get_parent_ref-ok t n above positive loads =
      let (l, level, found) =
        bind_returned (get_chain_level c t (n.height - 1)) (λ l. deref (get_elem? l.nodes n.parent))
          loads in
      ground (arith, level)

  -- From `r`, which is no orphan, parent links lead down to `a`.
  pub record Descends (t : BlockTree) (r a : Ref) : Type 0 where
    pub top : Steady t r
    pub blocks : List ChainNode
    pub path : Branch c t r a blocks

  -- A branch stays when its nodes do.
  pub Branch-kept :
      (t t' : BlockTree) (low : ℕ) {r a : Ref} {ns : List ChainNode}
      → Branch c t r a ns
      → ((q : Ref) (n : ChainNode)
          → get_chain_node c t q ≡ ok n
          → is_orphan n ≡ false
          → low ≤ q.level
          → get_chain_node c t' q ≡ ok n)
      → IsTree c t
      → Steady t r
      → t.min_height ≤ a.level
      → low ≤ a.level
      → Branch c t' r a ns
  Branch-kept t t' low here kept tree s inside under = here
  Branch-kept t t' low {r = r} (up n loads stands positive linked rest) kept tree s inside under =
      let e : s.node ≡ n = ground (arith, s.loads, loads) in
      let steady : is_orphan n ≡ false = ground (arith, e, s.steady) in
      let h = tree.parents r n loads steady (omega (arith, Branch-level c t rest)) in
      let place : record { level = r.level - 1; index = n.parent } ≡ parent_of n =
        ground (arith, stands) in
      let above : Steady t (parent_of n) = record {
        node = h.above;
        loads = ap (get_chain_node c t) (sym place) ∙ h.loads;
        steady = h.steady;
      } in
      let higher = Branch-level c t rest in
      up n (kept r n loads steady (omega (arith, higher))) stands positive
        (get_parent_ref-ok t' n above.node (ground (arith, stands))
          (kept (parent_of n) above.node above.loads above.steady (omega (arith, higher))))
        (Branch-kept t t' low rest kept tree above inside under)

  pub Descends-kept :
      (t t' : BlockTree) (r a : Ref)
      → Grown t t'
      → IsTree c t
      → t.min_height ≤ a.level
      → Descends t r a
      → Descends t' r a
  Descends-kept t t' r a g tree low d = record {
    top = Steady-kept t t' r g d.top;
    blocks = d.blocks;
    path =
        Branch-kept t t' a.level d.path (λ q n loads steady high. g.kept q n loads steady) tree
          d.top low (omega arith);
  }

  -- A node whose parent link leads to a node that descends from `a` does so too.
  pub Descends-up :
      (t : BlockTree) (r parent a : Ref) (n : ChainNode)
      → get_chain_node c t r ≡ ok n
      → is_orphan n ≡ false
      → n.height ≡ r.level
      → 0 < r.level
      → parent_of n ≡ parent
      → Descends t parent a
      → Descends t r a
  Descends-up t r parent a n loads steady stands positive e d =
      let s = subst (Steady t) (sym e) d.top in
      record {
        top = record { node = n; loads = loads; steady = steady };
        blocks = n ∷ d.blocks;
        path =
            up n loads stands positive
              (get_parent_ref-ok t n s.node (ground (arith, stands)) s.loads)
              (subst (λ x. Branch c t x a d.blocks) (sym e) d.path);
      }
