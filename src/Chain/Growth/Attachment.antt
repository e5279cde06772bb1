-- ===== src/Chain/Growth/Attachment.antt =====
-- addBlock of RBlockSim/src/Block.c up to the choice of the main chain, from a tree of the shape that
-- it keeps.
use rblock_sim_reproducibili.Base.{
  ◌⊎◌, Bool-cases, ℕ, ◌+◌, ◌-◌, ◌*◌, ◌≤◌, ◌<◌, ◌≡◌, refl, ap, sym, subst, ◌∙◌, inl, inr, some, none,
  Bool, true, false, arith, [], length, Option, Option-cases,
}
use rblock_sim_reproducibili.Run.{Run, ok, ◌>>=◌}
use rblock_sim_reproducibili.Platform.{Platform, Double}
use rblock_sim_reproducibili.Config.{Constants, Globals}
use rblock_sim_reproducibili.Chain.{
  same_ref, Block, BlockTree, ChainLevel, ChainNode, Ref, dec64, is_orphan, set_orphan,
  get_chain_node, get_chain_level, put_chain_level,
}
use rblock_sim_reproducibili.Chain.ForkChoice.{chain_node_max}
use rblock_sim_reproducibili.Chain.ForkChoice.Order.{IsRanking}
use rblock_sim_reproducibili.Chain.Levels.{InWindow, get_chain_level-put, get_chain_level_total}
use rblock_sim_reproducibili.Chain.Levels.Moves.{make_room_covers}
use rblock_sim_reproducibili.Chain.Levels.Nodes.{PutNode}
use rblock_sim_reproducibili.Chain.Switch.Paths.{here}
use rblock_sim_reproducibili.Chain.Growth.{
  attach_block, make_room, find_parent, populate_chain_node, linked,
}
use rblock_sim_reproducibili.Chain.Growth.Orphans.{with_node}
use rblock_sim_reproducibili.Chain.Growth.Tree.{IsTree, HasParent, put-IsTree, put-keeps, read_put}
use rblock_sim_reproducibili.Chain.Growth.Grown.{Steady, Descends}
use rblock_sim_reproducibili.Chain.Growth.Adoption.{
  AtLeast, AtLeast-trans, Overtakes, prefer_aux-Descends,
}
use rblock_sim_reproducibili.Chain.Growth.Unorphaning.{unorphan_blocks-Adopted}
use rblock_sim_reproducibili.Chain.Growth.Room.{Trimmed, Trimmed-IsTree, make_room-Trimmed}
use rblock_sim_reproducibili.Chain.Growth.Placement.{
  end_free, append_node-PutNode, find_parent-FoundParent, find_parent-IsFirst,
}
use rblock_sim_reproducibili.Chain.Growth.Waiting.{
  IsComplete, IsCompleteBut, IsFirst, Trimmed-IsComplete, Grown-IsComplete, put-IsCompleteBut,
  IsCompleteBut-IsComplete,
}

-- The node of a block that arrives at `now`.
abbrev pub arrived : Block → Double → ChainNode
arrived b now = record (populate_chain_node b) { timestamp = now }

module _ (c : Constants) (now : Double) (b : Block) (p : Platform) (g : Globals) where
  -- What `addBlock` leaves before it chooses the main chain: the block stands at its height; with its
  -- parent it is linked, and the node to choose has it for an ancestor and is preferred to all that is
  -- linked now; without, it is an orphan.
  pub record Attached (t : BlockTree) (r : Run (BlockTree × Ref × Option Ref)) : Type 0 where
    pub tree : BlockTree
    pub place : Ref
    pub best : Option Ref
    pub returns : r ≡ ok (tree, place, best)
    pub shape : IsTree c tree
    pub complete : IsComplete c t → IsComplete c tree
    pub min_height : tree.min_height ≡ (make_room c t b.height).min_height
    pub at_height : place.level ≡ b.height
    pub node : ChainNode
    pub held : get_chain_node c tree place ≡ ok node
    pub miner : node.miner ≡ b.miner
    pub block_data : node.transaction_data ≡ some b.transaction_data
    pub waits : best ≡ none → is_orphan node ≡ true
    pub leads : (a : Ref) → best ≡ some a → (is_orphan node ≡ false) × Descends c tree a place
    pub kept :
        (q : Ref) (n : ChainNode)
        → get_chain_node c t q ≡ ok n
        → is_orphan n ≡ false
        → tree.min_height ≤ q.level
        → get_chain_node c tree q ≡ ok n
    pub lower : (q : Ref) → Steady c tree q → q.level < b.height → Steady c t q
    pub greatest :
        IsRanking p g → (q : Ref) → Steady c tree q → Steady c t q ⊎ Overtakes c p g tree best q

  module _
      (prefers : (a b : ChainNode) → (first : Bool) × (chain_node_max p g a b ≡ ok first)) where
    -- The steps of `addBlock` on a tree with room for the block.
    module _ (t : BlockTree) (trim : Trimmed c t (make_room c t b.height))
        (tree : IsTree c (make_room c t b.height))
        (inside : InWindow c (make_room c t b.height) b.height)
        (inside_below : InWindow c (make_room c t b.height) (b.height - 1))
        (positive : 0 < b.height) (higher : b.height ≤ (make_room c t b.height).max_height)
        (l below : ChainLevel) (level : get_chain_level c (make_room c t b.height) b.height ≡ ok l)
        (under : get_chain_level c (make_room c t b.height) (b.height - 1) ≡ ok below) where
      abbrev room : BlockTree
      room = make_room c t b.height

      abbrev place : Ref
      place = record { level = b.height; index = length l.nodes }

      under_appended :
          get_chain_level c
            (put_chain_level c room b.height (with_node l (arrived b now)))
            (dec64 b.height)
          ≡ ok below
      under_appended =
          let once =
            (get_chain_level-put c room b.height (b.height - 1) (with_node l (arrived b now))
              tree.window inside inside_below).1 in
          ground (arith, once, under)

      free : (n : ChainNode) → get_chain_node c room place ≡ ok n → is_orphan n ≡ true
      free n loads = absurd (ground (arith, end_free c room b.height l level, loads))

      -- The new node keeps a complete tree complete but for what waits for it.
      complete_but :
          (v : BlockTree) (m : ChainNode)
          → PutNode c room place m v
          → ((q : Ref) (s : Steady c room q)
              → IsFirst c room q s.node
              → place.level ≡ q.level + 1
              → m.parent ≡ s.node.miner
              → is_orphan m ≡ false)
          → IsComplete c t
          → IsCompleteBut c v place
      complete_but v m put alone h =
          put-IsCompleteBut c room place m v put
            (λ n loads. absurd (ground (arith, end_free c room b.height l level, loads))) alone
            (Trimmed-IsComplete c t room trim tree h)

      kept_room :
          (v : BlockTree) (m : ChainNode)
          → PutNode c room place m v
          → (q : Ref) (n : ChainNode) → get_chain_node c t q ≡ ok n
          → is_orphan n ≡ false
          → room.min_height ≤ q.level
          → get_chain_node c v q ≡ ok n
      kept_room v m put q n loads steady low =
          put-keeps c room place m v put free q n (trim.stays q n loads low) steady

      lower_put :
          (v : BlockTree) (m : ChainNode)
          → PutNode c room place m v
          → (q : Ref) → Steady c v q
          → q.level < b.height
          → Steady c t q
      lower_put v m put q s low = record {
        node = s.node;
        loads = trim.came q s.node (ground (arith, put.reads q, s.loads));
        steady = s.steady;
      }

      new_or_old :
          (v : BlockTree) (m : ChainNode)
          → PutNode c room place m v
          → (q : Ref) → Steady c v q
          → (place ≡ q) ⊎ Steady c t q
      new_or_old v m put q s = elim (Bool-cases (same_ref place q)) [
        | inl e ↦ inl (ground (arith, e))
        | inr apart ↦ inr (record {
          node = s.node;
          loads = trim.came q s.node (ground (arith, put.reads q, apart, s.loads));
          steady = s.steady;
        })
      ]

      attach_orphan :
          find_parent below.nodes b.prev_block_miner 0 ≡ none
          → Attached t (attach_block c p g now t b)
      unfolding attach_block populate_chain_node set_orphan is_orphan get_chain_node
      attach_orphan missing =
          let m = set_orphan (arrived b now) in
          let (appended, v, done, put) =
            append_node-PutNode c room b.height l (arrived b now) m tree.window inside level in
          let held = read_put c room place m v put in
          record {
            tree = v;
            place = place;
            best = none;
            returns =
                rw (appended, ◌>>=◌)
                  (rw (under_appended, ◌>>=◌) (rw missing (rw (done, ◌>>=◌) refl)));
            shape =
                put-IsTree c room place m v put free tree refl higher
                  (λ steady. absurd (ground (arith, steady)));
            complete = λ h.
                IsCompleteBut-IsComplete c v place
                  (complete_but v m put
                    (λ q s first next same.
                      let e : q.level ≡ b.height - 1 = omega arith in
                      absurd (
                        ground (
                          arith,
                          s.steady,
                          find_parent-IsFirst c room q s.node below b.prev_block_miner
                              (ap (get_chain_level c room) e ∙ under) missing s.loads (sym same)
                              first,
                        )))
                    h)
                  (λ s. absurd (ground (arith, held, s.loads, s.steady)));
            min_height = put.min_height;
            at_height = refl;
            node = m;
            held = held;
            miner = refl;
            block_data = refl;
            waits = λ e. refl;
            leads = λ a e. absurd (ground (arith, e));
            kept = λ q n loads steady low.
                kept_room v m put q n loads steady (omega (arith, put.min_height, low));
            lower = lower_put v m put;
            greatest = λ rank q s. elim (new_or_old v m put q s) [
              | inl e ↦ absurd (ground (arith, ap (get_chain_node c v) e, held, s.loads, s.steady))
              | inr old ↦ inl old
            ];
          }

      -- The new node with the parent that the search finds.
      linked-HasParent :
          (i : ℕ) (parent : ChainNode)
          → find_parent below.nodes b.prev_block_miner 0 ≡ some (i, parent)
          → HasParent c room place (linked parent i (arrived b now))
      unfolding get_chain_node
      linked-HasParent i parent found =
          let f = find_parent-FoundParent below.nodes b.prev_block_miner 0 i parent found in
          record {
            above = parent;
            loads = ground (arith, under, f.held);
            steady = f.steady;
            score = refl;
          }

      attach_linked :
          (i : ℕ) (parent : ChainNode)
          → find_parent below.nodes b.prev_block_miner 0 ≡ some (i, parent)
          → Attached t (attach_block c p g now t b)
      unfolding attach_block populate_chain_node is_orphan
      attach_linked i parent found =
          let m = linked parent i (arrived b now) in
          let (appended, v, done, put) =
            append_node-PutNode c room b.height l (arrived b now) m tree.window inside level in
          let read = read_put c room place m v put in
          let shape =
            put-IsTree c room place m v put free tree refl higher
              (λ steady. linked-HasParent i parent found) in
          let steady : Steady c v place = record { node = m; loads = read; steady = refl } in
          let a =
            unorphan_blocks-Adopted c p g prefers (v.max_height + 2) v place shape steady
              (omega arith) (omega arith) in
          let held = a.grown.kept place m read refl in
          let (best, preferred, d, won) =
            prefer_aux-Descends c p g prefers a.tree place a.best place
              (record {
                top = record { node = m; loads = held; steady = refl };
                blocks = [];
                path = here;
              })
              a.heir in
          record {
            tree = a.tree;
            place = place;
            best = some best;
            returns =
                rw (appended, ◌>>=◌)
                  (rw (under_appended, ◌>>=◌)
                    (rw found
                      (rw (done, ◌>>=◌) (rw (a.returns, ◌>>=◌) (rw (preferred, ◌>>=◌) refl)))));
            shape = a.grown.tree;
            complete = λ h.
                Grown-IsComplete c v a.tree place a.grown a.all_served a.served
                  (complete_but v m put (λ q s first next same. refl) h);
            min_height = a.grown.min_height ∙ put.min_height;
            at_height = refl;
            node = m;
            held = held;
            miner = refl;
            block_data = refl;
            waits = λ e. absurd (ground (arith, e));
            leads = λ x e. (refl, subst (λ y. Descends c a.tree y place) (ground (arith, e)) d);
            kept = λ q n loads steady low.
                a.grown.kept q n
                  (kept_room v m put q n loads steady
                    (omega (arith, a.grown.min_height, put.min_height, low)))
                  steady;
            lower = λ q s low. lower_put v m put q (a.lower q s (omega arith)) low;
            greatest = λ rank q s. elim (a.greatest rank q s) [
              | inr (x, e, over) ↦ inr (
                best,
                refl,
                AtLeast-trans c p g a.tree best x q rank (a.heir x e).top ((won rank).1 x e) over,
              )
              | inl before ↦ elim (new_or_old v m put q before) [
                | inl e ↦ inr (best, refl, subst (AtLeast c p g a.tree best) e (won rank).0)
                | inr old ↦ inl old
              ]
            ];
          }

    -- Up to the choice of the main chain, `addBlock` always returns. It keeps the shape of the tree,
    -- the nodes above the lowest level that were no orphans, and that no orphan waits for a node that
    -- is there. The block stands at its height: linked, and then the node to choose descends from it,
    -- or as an orphan. Assumes that it is above the lowest level by less than the window allows, and that
    -- the comparison of two chains returns.
    pub attach_block-Attached :
        (t : BlockTree)
        → 0 < c.depth_to_keep
        → IsTree c t
        → t.min_height < b.height
        → b.height < t.min_height + 3 * c.depth_to_keep
        → Attached t (attach_block c p g now t b)
    attach_block-Attached t positive tree low high =
        let trim = make_room-Trimmed c t b.height tree high in
        let (window, inside, inside_below, higher, covers) =
          make_room_covers c t b.height positive tree.window tree.top low high in
        let shape = Trimmed-IsTree c t (make_room c t b.height) trim tree in
        let (l, level) = get_chain_level_total c (make_room c t b.height) b.height window inside in
        let (below, under) =
          get_chain_level_total c (make_room c t b.height) (b.height - 1) window inside_below in
        elim (Option-cases (find_parent below.nodes b.prev_block_miner 0)) [
          | inl missing ↦
              attach_orphan t trim shape inside inside_below (omega arith) higher l below level
                under missing
          | inr (f, found) ↦
              attach_linked t trim shape inside inside_below (omega arith) higher l below level
                under f.0 f.1 found
        ]
