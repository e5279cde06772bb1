-- ===== src/Chain/Levels.antt =====
-- getChainLevel of RBlockSim/src/Block.c: the two arrays of levels as a window of heights.
pub mod Moves
pub mod Nodes
use rblock_sim_reproducibili.Base.{
  get_elem?_inside, get_elem?_outside, get_elem?-set, ℕ, zero, suc, ◌+◌, ◌-◌, ◌*◌, ◌≤◌, ◌<◌, ◌≡◌,
  refl, ap, ◌∙◌, Bool-cases, inl, inr, some, none, List, [], ◌∷◌, arith, length, get_elem?, set,
  length-set, length-replicate, replicate, ltb, ◌==◌, if◌then◌else◌,
}
use rblock_sim_reproducibili.Run.{Run, ok, abort, fault}
use rblock_sim_reproducibili.Platform.{Platform}
use rblock_sim_reproducibili.Config.{Constants}
use rblock_sim_reproducibili.Chain.{
  BlockTree, Blockchain, ChainLevel, get_chain_level, put_chain_level, init_blockchain,
  get_main_chain, genesis_block, generate_chain_levels, get_chain_node, empty_level,
}
use rblock_sim_reproducibili.Chain.Growth.{move_chain_forward, reset_levels, make_room}

module _ (c : Constants) where
  -- Both arrays have DEPTH_TO_KEEP levels.
  pub record IsWindow (t : BlockTree) : Type 0 where
    pub old : length t.old_levels ≡ c.depth_to_keep
    pub current : length t.current_levels ≡ c.depth_to_keep

  -- The heights that the two arrays cover.
  abbrev pub InWindow : BlockTree → ℕ → Type 0
  InWindow t h = (t.min_height ≤ h) × (h < t.min_height + 2 * c.depth_to_keep)

  pub get_chain_level_total :
      (t : BlockTree) (h : ℕ)
      → IsWindow t
      → InWindow t h
      → (l : ChainLevel) × (get_chain_level c t h ≡ ok l)
  unfolding get_chain_level
  get_chain_level_total t h w inside = elim (Bool-cases (ltb (h - t.min_height) c.depth_to_keep)) [
    | inl low ↦
        let (l, found) = get_elem?_inside t.old_levels (h - t.min_height) (ground (arith, w.old)) in
        (l, ground (arith, found, low))
    | inr high ↦
        let (l, found) =
          get_elem?_inside t.current_levels (h - t.min_height - c.depth_to_keep)
            (ground (arith, w.current)) in
        (l, ground (arith, found, high))
  ]

  pub get_chain_level_below :
      (t : BlockTree) (h : ℕ) → h < t.min_height → get_chain_level c t h ≡ abort
  unfolding get_chain_level
  get_chain_level_below t h low = ground arith

  pub get_chain_level_edge :
      (t : BlockTree) (h : ℕ)
      → IsWindow t
      → h ≡ t.min_height + 2 * c.depth_to_keep
      → get_chain_level c t h ≡ fault
  unfolding get_chain_level
  get_chain_level_edge t h w edge =
      ground
        (arith, w.current, get_elem?_outside t.current_levels (h - t.min_height - c.depth_to_keep))

  pub get_chain_level_above :
      (t : BlockTree) (h : ℕ)
      → t.min_height + 2 * c.depth_to_keep < h
      → get_chain_level c t h ≡ abort
  unfolding get_chain_level
  get_chain_level_above t h high = ground arith

  -- The outcome of `getChainLevel` for each height.
  abbrev pub WindowRead : BlockTree → ℕ → Run ChainLevel → Type 0
  WindowRead t h r =
      let above = t.min_height + 2 * c.depth_to_keep in
      if ltb h t.min_height
      then r ≡ abort
      else if ltb h above
      then ((l : ChainLevel) × (r ≡ ok l))
      else if h == above
      then r ≡ fault
      else r ≡ abort

  -- With both arrays in place, `getChainLevel` returns a level at exactly the heights of the window. It
  -- ends the program below and above them, but not at the first height above, where it reads past the
  -- end of the array.
  pub get_chain_level_window :
      (t : BlockTree) (h : ℕ) → IsWindow t → WindowRead t h (get_chain_level c t h)
  get_chain_level_window t h w =
      let above = t.min_height + 2 * c.depth_to_keep in
      elim (Bool-cases (ltb h t.min_height)) [
        | inl low ↦ rw low (get_chain_level_below t h (ground arith))
        | inr not_low ↦ elim (Bool-cases (ltb h above)) [
          | inl inside ↦
              rw (not_low, inside) (get_chain_level_total t h w (ground arith, ground arith))
          | inr high ↦ elim (Bool-cases (h == above)) [
            | inl edge ↦ rw (not_low, high, edge) (get_chain_level_edge t h w (ground arith))
            | inr beyond ↦ rw (not_low, high, beyond) (get_chain_level_above t h (ground arith))
          ]
        ]
      ]

  -- Writing a level of the window keeps both arrays as long as they are, and at each height of the
  -- window the level is read back if it is its own, and the earlier level otherwise.
  pub get_chain_level-put :
      (t : BlockTree) (h k : ℕ) (l : ChainLevel)
      → IsWindow t
      → InWindow t h
      → InWindow t k
      → IsWindow (put_chain_level c t h l)
        × (get_chain_level c (put_chain_level c t h l) k
            ≡ (if h == k then ok l else get_chain_level c t k))
  unfolding get_chain_level put_chain_level
  get_chain_level-put t h k l w inside inside' = (
    record {
      old = ground (arith, w.old, length-set t.old_levels (h - t.min_height) l);
      current =
          ground
            (arith, w.current, length-set t.current_levels (h - t.min_height - c.depth_to_keep) l);
    },
    ground (
      arith,
      w.old,
      w.current,
      get_elem?-set t.old_levels (h - t.min_height) (k - t.min_height) l,
      get_elem?-set t.current_levels (h - t.min_height - c.depth_to_keep)
          (k - t.min_height - c.depth_to_keep) l,
    ),
  )
