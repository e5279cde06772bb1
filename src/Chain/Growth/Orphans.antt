-- ===== src/Chain/Growth/Orphans.antt =====
-- addBlock and receiveBlock of RBlockSim/src/Block.c on a block whose parent is unknown.
use rblock_sim_reproducibili.Base.{
  get_elem?-append_last, set-append_last, ℕ, ◌+◌, ◌-◌, ◌*◌, ◌<◌, ◌≡◌, ◌≢◌, refl, ◌∙◌, Bool, true,
  false, none, [], ◌∷◌, ◌++◌, arith, length, leb, ◌==◌, if◌then◌else◌,
}
use rblock_sim_reproducibili.Run.{Run, ok, ◌>>=◌}
use rblock_sim_reproducibili.Platform.{Double, Platform}
use rblock_sim_reproducibili.Config.{Constants, Globals}
use rblock_sim_reproducibili.Chain.{
  Block, BlockTree, ChainLevel, ChainNode, Ref, dec64, get_chain_level, get_chain_node,
  put_chain_level, put_chain_node, set_orphan, is_orphan,
}
use rblock_sim_reproducibili.Chain.Switch.{World}
use rblock_sim_reproducibili.Chain.Growth.{
  make_room, append_node, find_parent, populate_chain_node, attach_block, add_block, receive_block,
}
use rblock_sim_reproducibili.Chain.Levels.{
  IsWindow, InWindow, get_chain_level_total, get_chain_level-put,
}
use rblock_sim_reproducibili.Chain.Levels.Moves.{make_room_covers}

-- The node of a block that arrives at `now` and has no parent.
abbrev pub orphan : Block → Double → ChainNode
orphan b now = set_orphan (record (populate_chain_node b) { timestamp = now })

-- A level with one more node, and room for it.
abbrev pub with_node : ChainLevel → ChainNode → ChainLevel
with_node l n = record {
  nodes = l.nodes ++ n ∷ [];
  capacity = if leb l.capacity (length l.nodes) then l.capacity + 1 else l.capacity;
}

module _ (c : Constants) where
  -- The two writes of `addBlock` to the node that it appends.
  append-put :
      (t : BlockTree) (h : ℕ) (l : ChainLevel) (n m : ChainNode)
      → IsWindow c t
      → InWindow c t h
      → put_chain_node c
          (put_chain_level c t h (with_node l n))
          (record { level = h; index = length l.nodes })
          m
        ≡ ok (put_chain_level c (put_chain_level c t h (with_node l n)) h (with_node l m))
  unfolding put_chain_node
  append-put t h l n m w inside =
      let loads = (get_chain_level-put c t h h (with_node l n) w inside inside).1 in
      ground (arith, loads, get_elem?-append_last l.nodes n, set-append_last l.nodes n m)

  min_height-put :
      (t : BlockTree) (h : ℕ) (l : ChainLevel) → (put_chain_level c t h l).min_height ≡ t.min_height
  unfolding put_chain_level
  min_height-put t h l = ground arith

  -- Reading back after both writes.
  append-put-get :
      (t : BlockTree) (h k : ℕ) (l : ChainLevel) (n m : ChainNode)
      → IsWindow c t
      → InWindow c t h
      → InWindow c t k
      → get_chain_level c
          (put_chain_level c (put_chain_level c t h (with_node l n)) h (with_node l m))
          k
        ≡ (if h == k then ok (with_node l m) else get_chain_level c t k)
  append-put-get t h k l n m w inside inside' =
      let once = get_chain_level-put c t h k (with_node l n) w inside inside' in
      let same = min_height-put t h (with_node l n) in
      let twice =
        get_chain_level-put c (put_chain_level c t h (with_node l n)) h k (with_node l m) once.0
          (omega (arith, same, inside), omega (arith, same, inside))
          (omega (arith, same, inside'), omega (arith, same, inside')) in
      ground (arith, once.1, twice.1)

  pub append_node-ok :
      (t : BlockTree) (h : ℕ) (l : ChainLevel) (n : ChainNode)
      → get_chain_level c t h ≡ ok l
      → append_node c t h n
        ≡ ok (put_chain_level c t h (with_node l n), record { level = h; index = length l.nodes })
  unfolding append_node
  append_node-ok t h l n loads = rw (loads, ◌>>=◌) refl

  is_orphan-orphan : (b : Block) (now : Double) → is_orphan (orphan b now) ≡ true
  unfolding is_orphan set_orphan populate_chain_node
  is_orphan-orphan b now = refl

  module _ (p : Platform) (g : Globals) (me : ℕ) (now : Double) (w : World) (b : Block) where
    -- What a received orphan leaves: the main chain, the view of the transactions and the statistics as
    -- they were, and the tree with room for the block and the node at the end of its level, and no other
    -- level changed.
    pub record OrphanKept (r : Run (World × Bool × Bool)) : Type 0 where
      pub tree : BlockTree
      pub returns : r ≡ ok (record w { chain = record (w.chain) { tree = tree } }, false, false)
      pub level : ChainLevel
      pub loaded : get_chain_level c (make_room c w.chain.tree b.height) b.height ≡ ok level
      pub stored : get_chain_level c tree b.height ≡ ok (with_node level (orphan b now))
      pub others :
          (k : ℕ)
          → InWindow c (make_room c w.chain.tree b.height) k
          → k ≢ b.height
          → get_chain_level c tree k ≡ get_chain_level c (make_room c w.chain.tree b.height) k

    -- The tree of a node at which the orphan has arrived, with a level `l` that has room for it.
    abbrev grown : ChainLevel → BlockTree
    grown l =
        let n : ChainNode = record (populate_chain_node b) { timestamp = now } in
        put_chain_level c
          (put_chain_level c (make_room c w.chain.tree b.height) b.height (with_node l n)) b.height
          (with_node l (orphan b now))

    abbrev place : ChainLevel → Ref
    place l = record { level = b.height; index = length l.nodes }

    module _ (l below : ChainLevel) (window : IsWindow c (make_room c w.chain.tree b.height))
        (inside : InWindow c (make_room c w.chain.tree b.height) b.height)
        (inside_below : InWindow c (make_room c w.chain.tree b.height) (b.height - 1))
        (positive : 0 < b.height)
        (found : get_chain_level c (make_room c w.chain.tree b.height) b.height ≡ ok l)
        (loads : get_chain_level c (make_room c w.chain.tree b.height) (b.height - 1)
          ≡ ok below) where
      add_block_orphan :
          find_parent below.nodes b.prev_block_miner 0 ≡ none
          → add_block c p g me now w b
            ≡ ok (record w { chain = record (w.chain) { tree = grown l } }, place l)
      unfolding add_block attach_block
      add_block_orphan missing =
          let t = make_room c w.chain.tree b.height in
          let n : ChainNode = record (populate_chain_node b) { timestamp = now } in
          let appended = append_node-ok t b.height l n found in
          let once =
            (get_chain_level-put c t b.height (b.height - 1) (with_node l n) window inside
              inside_below).1 in
          let under : get_chain_level c (put_chain_level c t b.height (with_node l n))
                (dec64 b.height)
              ≡ ok below =
            ground (arith, once, loads) in
          let written = append-put t b.height l n (orphan b now) window inside in
          rw (appended, ◌>>=◌) (rw (under, ◌>>=◌) (rw missing (rw (written, ◌>>=◌) refl)))

      read_orphan : get_chain_node c (grown l) (place l) ≡ ok (orphan b now)
      unfolding get_chain_node
      read_orphan =
          let t = make_room c w.chain.tree b.height in
          let n : ChainNode = record (populate_chain_node b) { timestamp = now } in
          ground (
            arith,
            append-put-get t b.height b.height l n (orphan b now) window inside inside,
            get_elem?-append_last l.nodes (orphan b now),
          )

      receive_block_orphan :
          find_parent below.nodes b.prev_block_miner 0 ≡ none
          → receive_block c p g me now w b
            ≡ ok (record w { chain = record (w.chain) { tree = grown l } }, false, false)
      unfolding receive_block
      receive_block_orphan missing =
          rw (add_block_orphan missing, ◌>>=◌)
            (rw (read_orphan, ◌>>=◌) (ground (arith, is_orphan-orphan b now)))

    -- When no node of the level below is the parent, or an orphan is, `receiveBlock` succeeds,
    -- reports that no parent was found and that the main chain did not move, and only adds the
    -- orphan. Assumes that the window covers the highest block and that the new block is above its
    -- lowest level by less than 3 * DEPTH_TO_KEEP.
    pub receive_block-OrphanKept :
        (below : ChainLevel)
        → 0 < c.depth_to_keep
        → IsWindow c w.chain.tree
        → w.chain.tree.max_height < w.chain.tree.min_height + 2 * c.depth_to_keep
        → w.chain.tree.min_height < b.height
        → b.height < w.chain.tree.min_height + 3 * c.depth_to_keep
        → get_chain_level c (make_room c w.chain.tree b.height) (b.height - 1) ≡ ok below
        → find_parent below.nodes b.prev_block_miner 0 ≡ none
        → OrphanKept (receive_block c p g me now w b)
    receive_block-OrphanKept below positive window top low high loads missing =
        let t = make_room c w.chain.tree b.height in
        let (room, inside, inside_below, higher, covers) =
          make_room_covers c w.chain.tree b.height positive window top low high in
        let (l, found) = get_chain_level_total c t b.height room inside in
        let n : ChainNode = record (populate_chain_node b) { timestamp = now } in
        record {
          tree = grown l;
          returns =
              receive_block_orphan l below room inside inside_below (omega arith) found loads
                missing;
          level = l;
          loaded = found;
          stored =
              append-put-get t b.height b.height l n (orphan b now) room inside inside
              ∙ ground arith;
          others = λ k in_window apart.
              append-put-get t b.height k l n (orphan b now) room inside in_window ∙ ground arith;
        }
