-- ===== src/Chain/Growth/Sound.antt =====
-- initBlockchain, addBlock, receiveBlock and generateBlock of RBlockSim/src/Block.c, whenever they
-- return, on the shape of the tree and on its orphans.
use rblock_sim_reproducibili.Base.{
  ℕ, ◌+◌, ◌*◌, ◌^◌, ◌≤◌, ◌<◌, ◌≡◌, refl, sym, subst, some, none, Bool, arith, Option,
}
use rblock_sim_reproducibili.Run.{ok, ◌>>=◌, Ensures, Ensures-ok, Ensures-bind, Ensures-then}
use rblock_sim_reproducibili.Platform.{Platform, Double}
use rblock_sim_reproducibili.Config.{Constants, Globals}
use rblock_sim_reproducibili.Transaction.{Transaction}
use rblock_sim_reproducibili.Chain.{
  Block, BlockTree, ChainNode, Ref, dec64, get_chain_node, get_chain_level, put_chain_node,
  get_main_chain,
}
use rblock_sim_reproducibili.Chain.ForkChoice.{chain_node_max}
use rblock_sim_reproducibili.Chain.Levels.{IsWindow, InWindow, get_chain_level-put}
use rblock_sim_reproducibili.Chain.Levels.Moves.{make_room-IsWindow}
use rblock_sim_reproducibili.Chain.Levels.Nodes.{
  get_chain_level_inside, put_chain_level_heights, put_chain_node-PutNode,
}
use rblock_sim_reproducibili.Chain.Switch.{World, maybe_switch_chains}
use rblock_sim_reproducibili.Chain.Switch.Untouched.{maybe_switch_chains_tree}
use rblock_sim_reproducibili.Chain.Growth.{
  BlockchainState, attach_block, add_block, receive_block, generate_block, make_room,
  move_chain_forward, append_node,
}
use rblock_sim_reproducibili.Chain.Growth.Tree.{IsTree}
use rblock_sim_reproducibili.Chain.Growth.Waiting.{IsComplete}
use rblock_sim_reproducibili.Chain.Growth.Marks.{IsAlike, mark-IsTree, mark-IsComplete}
use rblock_sim_reproducibili.Chain.Growth.Attachment.{arrived, attach_block-Attached}

module _ (c : Constants) where
  -- The tree has its shape, and no orphan waits for a node that is there.
  pub record IsSound (t : BlockTree) : Type 0 where
    pub tree : IsTree c t
    pub complete : IsComplete c t

  append_node_inside :
      (t : BlockTree) (h : ℕ) (n : ChainNode)
      → IsWindow c t
      → Ensures
          (λ (r : BlockTree × Ref).
            InWindow c t h × IsWindow c r.0 × (r.0.min_height ≡ t.min_height))
          (append_node c t h n)
  unfolding append_node
  append_node_inside t h n w =
      Ensures-bind (get_chain_level c t h)
        (record { holds = λ l e. get_chain_level_inside c t h l w e })
        (λ l inside.
          Ensures-ok
            (λ (r : BlockTree × Ref).
              InWindow c t h × IsWindow c r.0 × (r.0.min_height ≡ t.min_height))
            _
            (
              inside,
              (get_chain_level-put c t h h _ w inside inside).0,
              (put_chain_level_heights c t h _).0,
            ))

  -- The two levels that `addBlock` reads are in the window only for heights like these.
  in_room :
      (t : BlockTree) (h : ℕ)
      → 2 * c.depth_to_keep < 2 ^ 64
      → t.max_height < t.min_height + 2 * c.depth_to_keep
      → InWindow c (make_room c t h) h
      → (make_room c t h).min_height ≤ dec64 h
      → dec64 h < (make_room c t h).min_height + 2 * c.depth_to_keep
      → (t.min_height < h) × (h < t.min_height + 3 * c.depth_to_keep)
  unfolding make_room move_chain_forward
  in_room t h small top inside low high = (ground arith, ground arith)

  module _ (p : Platform) (g : Globals)
      (prefers : (a b : ChainNode) → (first : Bool) × (chain_node_max p g a b ≡ ok first)) where
    attach_block_bounds :
        (now : Double) (t : BlockTree) (b : Block)
        → 2 * c.depth_to_keep < 2 ^ 64
        → IsTree c t
        → Ensures
            (λ (r : BlockTree × Ref × Option Ref).
              (t.min_height < b.height) × (b.height < t.min_height + 3 * c.depth_to_keep))
            (attach_block c p g now t b)
    unfolding attach_block
    attach_block_bounds now t b small tree =
        let room = make_room c t b.height in
        let w = make_room-IsWindow c t b.height tree.window in
        Ensures-bind (append_node c room b.height (arrived b now))
          (append_node_inside room b.height (arrived b now) w)
          (λ u (inside, window, same).
            Ensures-bind (get_chain_level c u.0 (dec64 b.height))
              (record { holds = λ l e. get_chain_level_inside c u.0 (dec64 b.height) l window e })
              (λ below (low, high). record {
                holds = λ r e.
                    in_room t b.height small tree.top inside (omega (arith, same, low))
                      (omega (arith, same, high));
              }))

    attach_block-IsSound :
        (now : Double) (t : BlockTree) (b : Block)
        → 2 * c.depth_to_keep < 2 ^ 64
        → IsSound t
        → Ensures (λ (r : BlockTree × Ref × Option Ref). IsSound r.0) (attach_block c p g now t b)
    attach_block-IsSound now t b small s = record {
      holds = λ r e.
          let (low, high) = (attach_block_bounds now t b small s.tree).holds r e in
          let a = attach_block-Attached c now b p g prefers t (omega arith) s.tree low high in
          let same : a.tree ≡ r.0 = ground (arith, a.returns, e) in
          subst IsSound same (record { tree = a.shape; complete = a.complete s.complete });
    }

    abbrev SoundFirst : {A : Type 0} → World × A → Type 0
    SoundFirst r = IsSound r.0.chain.tree

    -- Either choice of the main chain.
    chosen-IsSound :
        (me : ℕ) (w : World) (r : Ref) (best : Option Ref)
        → IsSound w.chain.tree
        → Ensures (SoundFirst {A = Ref}) (elim best [
          | none ↦ ok (w, r)
          | some b ↦ maybe_switch_chains p g me c w b b.index >>= λ v. ok (v, r)
        ])
    chosen-IsSound me w r none s = Ensures-ok SoundFirst (w, r) s
    chosen-IsSound me w r (some b) s =
        Ensures-bind (maybe_switch_chains p g me c w b b.index)
          (maybe_switch_chains_tree p g me c w b b.index)
          (λ v same. Ensures-ok SoundFirst (v, r) (subst IsSound (sym same) s))

    -- Whenever `addBlock` returns, it keeps the tree sound.
    pub add_block-IsSound :
        (me : ℕ) (now : Double) (w : World) (b : Block)
        → 2 * c.depth_to_keep < 2 ^ 64
        → IsSound w.chain.tree
        → Ensures (λ (r : World × Ref). IsSound r.0.chain.tree) (add_block c p g me now w b)
    unfolding add_block
    add_block-IsSound me now w b small s =
        Ensures-bind (attach_block c p g now w.chain.tree b)
          (attach_block-IsSound now w.chain.tree b small s)
          (λ (t, r, best) sound.
            chosen-IsSound me (record w { chain = record (w.chain) { tree = t } }) r best sound)

    pub receive_block-IsSound :
        (me : ℕ) (now : Double) (w : World) (b : Block)
        → 2 * c.depth_to_keep < 2 ^ 64
        → IsSound w.chain.tree
        → Ensures
            (λ (r : World × Bool × Bool). IsSound r.0.chain.tree)
            (receive_block c p g me now w b)
    unfolding receive_block
    receive_block-IsSound me now w b small s =
        Ensures-bind (add_block c p g me now w b) (add_block-IsSound me now w b small s)
          (λ (v, r) sound.
            Ensures-then (get_chain_node c v.chain.tree r)
              (λ n. Ensures-ok (λ (r : World × Bool × Bool). IsSound r.0.chain.tree) _ sound))

  mark-IsSound :
      (t : BlockTree) (r : Ref) (old m : ChainNode)
      → IsSound t
      → get_chain_node c t r ≡ ok old
      → IsAlike old m
      → Ensures IsSound (put_chain_node c t r m)
  mark-IsSound t r old m s held alike =
      let (t', done, put, sizes) = put_chain_node-PutNode c t r old m s.tree.window held in
      rw done (
        Ensures-ok IsSound t' (record {
          tree = mark-IsTree c t r old m t' put held alike s.tree;
          complete = mark-IsComplete c t r old m t' put held alike s.complete;
        }))

  module _ (p : Platform) (g : Globals) (txns : ℕ → Transaction) (delivery : ℕ → ℕ → Double)
      (prefers : (a b : ChainNode) → (first : Bool) × (chain_node_max p g a b ≡ ok first)) where
    pub generate_block-IsSound :
        (me : ℕ) (now : Double) (b : BlockchainState)
        → 2 * c.depth_to_keep < 2 ^ 64
        → IsSound b.world.chain.tree
        → Ensures
            (λ (r : Block × BlockchainState). IsSound r.1.world.chain.tree)
            (generate_block p c g txns delivery me now b)
    unfolding generate_block
    generate_block-IsSound me now b small s = Ensures-then (get_main_chain c b.world.chain) (λ main.
        Ensures-bind (add_block c p g me now _ _) (add_block-IsSound p g prefers me now _ _ small s)
          (λ (v, r) sound.
            Ensures-bind (get_chain_node c v.chain.tree r) (record { holds = λ n e. e })
              (λ n held.
                Ensures-bind (put_chain_node c v.chain.tree r _)
                  (mark-IsSound v.chain.tree r n _ sound held (record {
                    parent = refl;
                    miner = refl;
                    height = refl;
                    score = refl;
                    flags = refl;
                  }))
                  (λ t marked.
                    Ensures-ok (λ (r : Block × BlockchainState). IsSound r.1.world.chain.tree) _
                      marked))))
