-- ===== src/Chain/Levels/Nodes.antt =====
-- getChainNode of RBlockSim/src/Block.c and the writes through its result: the nodes as a store.
use rblock_sim_reproducibili.Base.{
  get_elem?_outside, get_elem?-set, ℕ, ◌+◌, ◌*◌, ◌<◌, ◌≡◌, true, Bool-cases, inl, inr, [], ◌∷◌,
  ◌++◌, arith, length, get_elem?, set, length-set, ltb, ◌==◌, if◌then◌else◌, get_elem?-append,
}
use rblock_sim_reproducibili.Run.{Run, ok, deref, ◌>>=◌, bind_returned}
use rblock_sim_reproducibili.Config.{Constants}
use rblock_sim_reproducibili.Chain.{
  BlockTree, ChainLevel, ChainNode, Ref, same_ref, get_chain_level, put_chain_level, get_chain_node,
  put_chain_node,
}
use rblock_sim_reproducibili.Chain.Levels.{
  IsWindow, InWindow, get_chain_level-put, get_chain_level_below, get_chain_level_edge,
  get_chain_level_above,
}

pub same_ref→eq : (a b : Ref) → same_ref a b ≡ true → a ≡ b
same_ref→eq a b h = ground arith

pub same_ref_refl : (a : Ref) → same_ref a a ≡ true
same_ref_refl a = ground arith

module _ (c : Constants) where
  -- A level that is read lies in the window.
  pub get_chain_level_inside :
      (t : BlockTree) (h : ℕ) (l : ChainLevel)
      → IsWindow c t
      → get_chain_level c t h ≡ ok l
      → InWindow c t h
  get_chain_level_inside t h l w loads = elim (Bool-cases (ltb h t.min_height)) [
    | inl low ↦ absurd (ground (arith, get_chain_level_below c t h (ground arith), loads))
    | inr not_low ↦ elim (Bool-cases (ltb h (t.min_height + 2 * c.depth_to_keep))) [
      | inl inside ↦ (ground arith, ground arith)
      | inr high ↦ elim (Bool-cases (h == t.min_height + 2 * c.depth_to_keep)) [
        | inl edge ↦ absurd (ground (arith, get_chain_level_edge c t h w (ground arith), loads))
        | inr beyond ↦ absurd (ground (arith, get_chain_level_above c t h (ground arith), loads))
      ]
    ]
  ]

  pub put_chain_level_heights :
      (t : BlockTree) (h : ℕ) (l : ChainLevel)
      → ((put_chain_level c t h l).min_height ≡ t.min_height)
        × ((put_chain_level c t h l).max_height ≡ t.max_height)
  unfolding put_chain_level
  put_chain_level_heights t h l = (ground arith, ground arith)

  -- Reading any height after a write.
  get_chain_level-put_any :
      (t : BlockTree) (h k : ℕ) (l : ChainLevel)
      → IsWindow c t
      → InWindow c t h
      → get_chain_level c (put_chain_level c t h l) k
        ≡ (if h == k then ok l else get_chain_level c t k)
  get_chain_level-put_any t h k l w inside =
      let t' = put_chain_level c t h l in
      let (low, top) = put_chain_level_heights t h l in
      let w' : IsWindow c t' = (get_chain_level-put c t h h l w inside inside).0 in
      elim (Bool-cases (ltb k t.min_height)) [
        | inl under ↦ ground (
          arith,
          get_chain_level_below c t k (ground arith),
          get_chain_level_below c t' k (ground arith),
        )
        | inr not_under ↦ elim (Bool-cases (ltb k (t.min_height + 2 * c.depth_to_keep))) [
          | inl within ↦ (get_chain_level-put c t h k l w inside (ground arith, ground arith)).1
          | inr over ↦ elim (Bool-cases (k == t.min_height + 2 * c.depth_to_keep)) [
            | inl edge ↦ ground (
              arith,
              get_chain_level_edge c t k w (ground arith),
              get_chain_level_edge c t' k w' (ground arith),
            )
            | inr beyond ↦ ground (
              arith,
              get_chain_level_above c t k (ground arith),
              get_chain_level_above c t' k (ground arith),
            )
          ]
        ]
      ]

  -- The number of nodes of a level.
  unfoldable pub level_size : BlockTree → ℕ → Run ℕ
  level_size t h = do l ← get_chain_level c t h; ok (length l.nodes)

  -- `t'` is `t` with `n` at the place `r`.
  pub record PutNode (t : BlockTree) (r : Ref) (n : ChainNode) (t' : BlockTree) : Type 0 where
    pub window : IsWindow c t'
    pub min_height : t'.min_height ≡ t.min_height
    pub max_height : t'.max_height ≡ t.max_height
    pub inside : InWindow c t r.level
    pub reads :
        (q : Ref) → get_chain_node c t' q ≡ (if same_ref r q then ok n else get_chain_node c t q)

  -- A write at a place that holds a node.
  pub put_chain_node-PutNode :
      (t : BlockTree) (r : Ref) (old n : ChainNode)
      → IsWindow c t
      → get_chain_node c t r ≡ ok old
      → (t' : BlockTree) × (put_chain_node c t r n ≡ ok t')
        × PutNode t r n t'
        × ((k : ℕ) → level_size t' k ≡ level_size t k)
  unfolding get_chain_node put_chain_node level_size
  put_chain_node-PutNode t r old n w loads =
      let (l, level, found) =
        bind_returned (get_chain_level c t r.level) (λ l. deref (get_elem? l.nodes r.index))
          loads in
      let inside = get_chain_level_inside t r.level l w level in
      let l' : ChainLevel = record l { nodes = set l.nodes r.index n } in
      let t' = put_chain_level c t r.level l' in
      let (low, top) = put_chain_level_heights t r.level l' in
      let short : (r.index < length l.nodes) = elim (Bool-cases (ltb r.index (length l.nodes))) [
        | inl yes' ↦ ground arith
        | inr no' ↦ absurd (ground (arith, get_elem?_outside l.nodes r.index (ground arith), found))
      ] in
      (
        t',
        ground (arith, level, found),
        record {
          window = (get_chain_level-put c t r.level r.level l' w inside inside).0;
          min_height = low;
          max_height = top;
          inside = inside;
          reads = λ q. ground (
            arith,
            level,
            get_chain_level-put_any t r.level q.level l' w inside,
            get_elem?-set l.nodes r.index q.index n short,
          );
        },
        λ k. ground (
          arith,
          level,
          get_chain_level-put_any t r.level k l' w inside,
          length-set l.nodes r.index n,
        ),
      )

  -- A new place at the end of a level: the node is read back there, and no other node changes.
  pub append_level-PutNode :
      (t : BlockTree) (h : ℕ) (l : ChainLevel) (capacity : ℕ) (n : ChainNode)
      → IsWindow c t
      → get_chain_level c t h ≡ ok l
      → PutNode t
          (record { level = h; index = length l.nodes })
          n
          (put_chain_level c t h (record { nodes = l.nodes ++ n ∷ []; capacity = capacity }))
  unfolding get_chain_node
  append_level-PutNode t h l capacity n w level =
      let l' : ChainLevel = record { nodes = l.nodes ++ n ∷ []; capacity = capacity } in
      let inside = get_chain_level_inside t h l w level in
      let (low, top) = put_chain_level_heights t h l' in
      record {
        window = (get_chain_level-put c t h h l' w inside inside).0;
        min_height = low;
        max_height = top;
        inside = inside;
        reads = λ q. ground (
          arith,
          level,
          get_chain_level-put_any t h q.level l' w inside,
          get_elem?-append l.nodes n q.index,
        );
      }
