-- ===== src/Chain/Growth/Room.antt =====
-- moveChainForward and the first step of addBlock of RBlockSim/src/Block.c on the shape of the tree.
use rblock_sim_reproducibili.Base.{
  ℕ, ◌+◌, ◌-◌, ◌*◌, ◌≤◌, ◌<◌, ◌≡◌, refl, ap, sym, ◌∙◌, Bool-cases, inl, inr, arith, ltb, leb,
  get_elem?,
}
use rblock_sim_reproducibili.Run.{ok, deref, bind_returned}
use rblock_sim_reproducibili.Config.{Constants}
use rblock_sim_reproducibili.Chain.{BlockTree, ChainNode, Ref, get_chain_node, get_chain_level}
use rblock_sim_reproducibili.Chain.Levels.{IsWindow, get_chain_level_total}
use rblock_sim_reproducibili.Chain.Levels.Nodes.{get_chain_level_inside}
use rblock_sim_reproducibili.Chain.Levels.Moves.{
  move_chain_forward_keeps, move_chain_forward_empties, move_chain_forward-IsWindow,
}
use rblock_sim_reproducibili.Chain.Growth.{move_chain_forward, make_room}
use rblock_sim_reproducibili.Chain.Growth.Tree.{IsTree}

module _ (c : Constants) where
  -- `t'` holds the nodes of `t` from some height on.
  pub record Trimmed (t t' : BlockTree) : Type 0 where
    pub window : IsWindow c t'
    pub raised : t.min_height ≤ t'.min_height
    pub max_height : t.max_height ≤ t'.max_height
    pub top : t'.max_height < t'.min_height + 2 * c.depth_to_keep
    pub came :
        (r : Ref) (n : ChainNode) → get_chain_node c t' r ≡ ok n → get_chain_node c t r ≡ ok n
    pub stays :
        (r : Ref) (n : ChainNode)
        → get_chain_node c t r ≡ ok n
        → t'.min_height ≤ r.level
        → get_chain_node c t' r ≡ ok n

  pub Trimmed-IsTree : (t t' : BlockTree) → Trimmed t t' → IsTree c t → IsTree c t'
  Trimmed-IsTree t t' trim tree = record {
    window = trim.window;
    top = trim.top;
    stands = λ r n loads. tree.stands r n (trim.came r n loads);
    below_top =
        λ r n loads. omega (arith, tree.below_top r n (trim.came r n loads), trim.max_height);
    parents = λ r n loads steady low.
        let h = tree.parents r n (trim.came r n loads) steady (omega (arith, trim.raised)) in
        record {
          above = h.above;
          loads =
              trim.stays (record { level = r.level - 1; index = n.parent }) h.above h.loads
                (omega arith);
          steady = h.steady;
          score = h.score;
        };
  }

  move_chain_forward_min :
      (t : BlockTree) → (move_chain_forward c t).min_height ≡ t.min_height + c.depth_to_keep
  unfolding move_chain_forward
  move_chain_forward_min t = refl

  -- The node that a moved chain holds was held before, in the upper half of the window.
  move_chain_forward_came :
      (t : BlockTree) (r : Ref) (n : ChainNode)
      → IsWindow c t
      → IsWindow c (move_chain_forward c t)
      → get_chain_node c (move_chain_forward c t) r ≡ ok n
      → get_chain_node c t r ≡ ok n
  unfolding get_chain_node
  move_chain_forward_came t r n w w' loads =
      let (l, level, found) =
        bind_returned (get_chain_level c (move_chain_forward c t) r.level)
          (λ l. deref (get_elem? l.nodes r.index)) loads in
      let (low, high) = get_chain_level_inside c (move_chain_forward c t) r.level l w' level in
      let raised = move_chain_forward_min t in
      elim (Bool-cases (ltb r.level (t.min_height + 2 * c.depth_to_keep))) [
        | inl kept ↦
            let same =
              (move_chain_forward_keeps c t r.level w (omega (arith, raised, low))
                (ground arith)).1 in
            ground (arith, sym same ∙ level, found)
        | inr fresh ↦
            let h = r.level - 2 * c.depth_to_keep in
            let under : t.min_height ≤ h = ground arith in
            let lower : h < t.min_height + c.depth_to_keep = ground (arith, raised, high) in
            let (old, held) = get_chain_level_total c t h w (under, omega arith) in
            let empty = (move_chain_forward_empties c t h old under lower held).0 in
            let same : h + 2 * c.depth_to_keep ≡ r.level = ground arith in
            absurd (
              ground (
                arith,
                sym (ap (get_chain_level c (move_chain_forward c t)) same) ∙ empty,
                level,
                found,
              ))
      ]

  move_chain_forward-Trimmed :
      (t : BlockTree)
      → IsWindow c t
      → ((r : Ref) (n : ChainNode)
          → get_chain_node c t r ≡ ok n
          → r.level < t.min_height + 2 * c.depth_to_keep)
      → t.max_height < t.min_height + 3 * c.depth_to_keep
      → Trimmed t (move_chain_forward c t)
  unfolding move_chain_forward get_chain_node
  move_chain_forward-Trimmed t w inside high =
      let moved : IsWindow c (move_chain_forward c t) = move_chain_forward-IsWindow c t w in
      record {
        window = moved;
        raised = omega arith;
        max_height = omega arith;
        top = omega arith;
        came = λ r n loads. move_chain_forward_came t r n w moved loads;
        stays = λ r n loads low.
            let same = (move_chain_forward_keeps c t r.level w low (inside r n loads)).1 in
            ground (arith, same, loads);
      }

  -- Raising the highest block alone changes no node.
  raised : BlockTree → ℕ → BlockTree
  raised t h = record t { max_height = h }

  raised-Trimmed :
      (t : BlockTree) (h : ℕ)
      → IsWindow c t
      → t.max_height ≤ h
      → h < t.min_height + 2 * c.depth_to_keep
      → Trimmed t (raised t h)
  unfolding raised get_chain_node get_chain_level
  raised-Trimmed t h w higher inside = record {
    window = record { old = w.old; current = w.current };
    raised = omega arith;
    max_height = higher;
    top = inside;
    came = λ r n loads. loads;
    stays = λ r n loads low. loads;
  }

  -- Making room for a block keeps the nodes from the new lowest level on.
  pub make_room-Trimmed :
      (t : BlockTree) (h : ℕ)
      → IsTree c t
      → h < t.min_height + 3 * c.depth_to_keep
      → Trimmed t (make_room c t h)
  unfolding make_room raised get_chain_node get_chain_level
  make_room-Trimmed t h tree high = elim (Bool-cases (ltb t.max_height h)) [
    | inr low ↦ rw low (raised-Trimmed t t.max_height tree.window (omega arith) tree.top)
    | inl higher ↦ elim (Bool-cases (leb (t.min_height + 2 * c.depth_to_keep) h)) [
      | inr inside ↦
          rw (higher, inside)
            (raised-Trimmed t h tree.window (ground (arith, higher)) (ground (arith, inside)))
      | inl above ↦
          let w : IsWindow c (raised t h) = record {
            old = tree.window.old;
            current = tree.window.current;
          } in
          let m =
            move_chain_forward-Trimmed (raised t h) w
              (λ r n loads. omega (arith, tree.below_top r n loads, tree.top)) high in
          rw (higher, above)
            (record {
              window = m.window;
              raised = m.raised;
              max_height = ground (arith, higher, m.max_height);
              top = m.top;
              came = m.came;
              stays = m.stays;
            })
    ]
  ]
