-- ===== src/Chain/Levels/Moves.antt =====
-- moveChainForward, the first step of addBlock and initBlockchain of RBlockSim/src/Block.c: how the
-- window of heights moves.
use rblock_sim_reproducibili.Base.{
  replicate_first, get_elem?-set, ℕ, zero, suc, ◌+◌, ◌-◌, ◌*◌, ◌≤◌, ◌<◌, ◌≡◌, refl, ap, ◌∙◌, some,
  List, [], ◌∷◌, arith, length, get_elem?, length-replicate,
}
use rblock_sim_reproducibili.Run.{ok, abort}
use rblock_sim_reproducibili.Platform.{Platform}
use rblock_sim_reproducibili.Config.{Constants}
use rblock_sim_reproducibili.Chain.{
  BlockTree, Blockchain, ChainLevel, get_chain_level, put_chain_level, init_blockchain,
  get_main_chain, genesis_block, generate_chain_levels, get_chain_node, empty_level,
}
use rblock_sim_reproducibili.Chain.Growth.{move_chain_forward, reset_levels, make_room}
use rblock_sim_reproducibili.Chain.Levels.{IsWindow, InWindow, get_chain_level-put}

abbrev pub emptied : ChainLevel → ChainLevel
emptied l = record l { nodes = [] }

length-reset_levels : (ls : List ChainLevel) → length (reset_levels ls) ≡ length ls
unfolding reset_levels
length-reset_levels [] = refl
length-reset_levels (l ∷ ls) = omega (arith, length-reset_levels ls)

get_elem?-reset_levels :
    (ls : List ChainLevel) (i : ℕ) (l : ChainLevel)
    → get_elem? ls i ≡ some l
    → get_elem? (reset_levels ls) i ≡ some (emptied l)
unfolding reset_levels
get_elem?-reset_levels [] i l h = cc
get_elem?-reset_levels (x ∷ ls) zero l h = cc h
get_elem?-reset_levels (x ∷ ls) (suc i) l h = get_elem?-reset_levels ls i l h

module _ (c : Constants) where
  pub move_chain_forward-IsWindow :
      (t : BlockTree) → IsWindow c t → IsWindow c (move_chain_forward c t)
  unfolding move_chain_forward
  move_chain_forward-IsWindow t w = record {
    old = w.current;
    current = omega (arith, length-reset_levels t.old_levels, w.old);
  }

  -- `moveChainForward` raises the window by DEPTH_TO_KEEP: it leaves the levels of the upper half at
  -- their heights.
  pub move_chain_forward_keeps :
      (t : BlockTree) (h : ℕ)
      → IsWindow c t
      → t.min_height + c.depth_to_keep ≤ h
      → h < t.min_height + 2 * c.depth_to_keep
      → IsWindow c (move_chain_forward c t)
        × (get_chain_level c (move_chain_forward c t) h ≡ get_chain_level c t h)
  unfolding get_chain_level move_chain_forward
  move_chain_forward_keeps t h w upper inside = (move_chain_forward-IsWindow t w, ground arith)

  -- After `moveChainForward` a level of the lower half is out of reach, and its room serves,
  -- without nodes, the height that is 2 * DEPTH_TO_KEEP above.
  pub move_chain_forward_empties :
      (t : BlockTree) (h : ℕ) (l : ChainLevel)
      → t.min_height ≤ h
      → h < t.min_height + c.depth_to_keep
      → get_chain_level c t h ≡ ok l
      → (get_chain_level c (move_chain_forward c t) (h + 2 * c.depth_to_keep) ≡ ok (emptied l))
        × (get_chain_level c (move_chain_forward c t) h ≡ abort)
  unfolding get_chain_level move_chain_forward
  move_chain_forward_empties t h l inside lower loads =
      let place = h - t.min_height in
      let low : get_elem? t.old_levels place ≡ some l = ground (arith, loads) in
      let same : h + 2 * c.depth_to_keep - (t.min_height + c.depth_to_keep) - c.depth_to_keep
          ≡ place =
        omega arith in
      let moved =
        ap (get_elem? (reset_levels t.old_levels)) same
        ∙ get_elem?-reset_levels t.old_levels place l low in
      (ground (arith, moved), ground arith)

  pub make_room-IsWindow : (t : BlockTree) (h : ℕ) → IsWindow c t → IsWindow c (make_room c t h)
  unfolding make_room move_chain_forward
  make_room-IsWindow t h w = record {
    old = ground (arith, w.old, w.current);
    current = ground (arith, w.old, w.current, length-reset_levels t.old_levels);
  }

  -- A window that the highest block lies in makes room for every block above its lowest level and less
  -- than 3 * DEPTH_TO_KEEP above it: the block, its parent and the highest block lie in the new window.
  pub make_room_covers :
      (t : BlockTree) (h : ℕ)
      → 0 < c.depth_to_keep
      → IsWindow c t
      → t.max_height < t.min_height + 2 * c.depth_to_keep
      → t.min_height < h
      → h < t.min_height + 3 * c.depth_to_keep
      → let room = make_room c t h in
        IsWindow c room
        × InWindow c room h
        × InWindow c room (h - 1)
        × (h ≤ room.max_height)
        × (room.max_height < room.min_height + 2 * c.depth_to_keep)
  unfolding make_room move_chain_forward
  make_room_covers t h positive w top low high = (
    make_room-IsWindow t h w,
    (ground arith, ground arith),
    (ground arith, ground arith),
    ground arith,
    ground arith,
  )

  -- When at least one level is kept, initialising a chain succeeds, both arrays are in place, and
  -- the main chain is the genesis block.
  pub init_blockchain_starts :
      (p : Platform)
      → 0 < c.depth_to_keep
      → (b : Blockchain) × (init_blockchain c p ≡ ok b)
        × IsWindow c b.tree
        × (get_main_chain c b ≡ ok (genesis_block p))
  unfolding init_blockchain get_main_chain get_chain_node get_chain_level put_chain_level
  init_blockchain_starts p positive =
      let t : BlockTree = record {
        current_levels = generate_chain_levels c;
        old_levels = generate_chain_levels c;
        max_height = 0;
        min_height = 0;
      } in
      let first : get_elem? t.old_levels 0 ≡ some empty_level =
        replicate_first c.depth_to_keep empty_level positive in
      let level : ChainLevel = record { nodes = genesis_block p ∷ []; capacity = 1 } in
      let sized : length t.old_levels ≡ c.depth_to_keep =
        length-replicate c.depth_to_keep empty_level in
      let w : IsWindow c t = record { old = sized; current = sized } in
      let written = get_elem?-set t.old_levels 0 0 level (omega (arith, sized)) in
      (
        record { tree = put_chain_level c t 0 level; main_chain_index = 0; height = 0 },
        ground (arith, first),
        (get_chain_level-put c t 0 0 level w (omega arith, omega arith)
            (omega arith, omega arith)).0,
        ground (arith, written),
      )
