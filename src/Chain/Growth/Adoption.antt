-- ===== src/Chain/Growth/Adoption.antt =====
-- unorphanBlocks of RBlockSim/src/Block.c, from the tree that addBlock calls it on.
use rblock_sim_reproducibili.Base.{
  ap, subst, sym, ◌∙◌, ◌⊎◌, ◌+◌, ◌≤◌, ◌≡◌, refl, Bool-cases, inl, inr, some, none, Bool, true,
  false, arith, List, ◌++◌, Option, get_elem?,
}
use rblock_sim_reproducibili.Run.{Run, ok, deref, bind_returned}
use rblock_sim_reproducibili.Platform.{Platform}
use rblock_sim_reproducibili.Config.{Constants, Globals}
use rblock_sim_reproducibili.Chain.{
  BlockTree, ChainNode, Ref, is_orphan, get_chain_node, get_chain_level,
}
use rblock_sim_reproducibili.Chain.ForkChoice.{chain_node_max}
use rblock_sim_reproducibili.Chain.ForkChoice.Order.{IsRanking}
use rblock_sim_reproducibili.Chain.Levels.{InWindow}
use rblock_sim_reproducibili.Chain.Levels.Nodes.{get_chain_level_inside}
use rblock_sim_reproducibili.Chain.Switch.Paths.{Branch, here, up}
use rblock_sim_reproducibili.Chain.Growth.{linked, prefer, prefer_new, prefer_aux}
use rblock_sim_reproducibili.Chain.Growth.Tree.{IsTree}
use rblock_sim_reproducibili.Chain.Growth.Grown.{Steady, Steady-kept, Grown, Descends}

pub some-inj : (a b : Ref) → some a ≡ some b → a ≡ b
some-inj a b h = ground (arith, h)

module _ (c : Constants) where
  pub Steady-inside : (t : BlockTree) (r : Ref) → IsTree c t → Steady c t r → InWindow c t r.level
  unfolding get_chain_node
  Steady-inside t r tree s =
      let (l, level, found) =
        bind_returned (get_chain_level c t r.level) (λ l. deref (get_elem? l.nodes r.index))
          s.loads in
      get_chain_level_inside c t r.level l tree.window level

  Branch-append :
      (t : BlockTree) {a b d : Ref} {ns ms : List ChainNode}
      → Branch c t a b ns
      → Branch c t b d ms
      → Branch c t a d (ns ++ ms)
  Branch-append t here q = q
  Branch-append t (up n loads stands positive linked rest) q =
      up n loads stands positive linked (Branch-append t rest q)

  pub Descends-append :
      (t : BlockTree) (a b d : Ref) → Descends c t a b → Descends c t b d → Descends c t a d
  Descends-append t a b d x y = record {
    top = x.top;
    blocks = x.blocks ++ y.blocks;
    path = Branch-append t x.path y.path;
  }

  -- No orphan of the next level has the node at `q` for its parent.
  abbrev pub Served : BlockTree → Ref → Type 0
  Served t q =
      (above : ChainNode) (r : Ref) (n : ChainNode)
      → get_chain_node c t q ≡ ok above
      → get_chain_node c t r ≡ ok n
      → r.level ≡ q.level + 1
      → n.parent ≡ above.miner
      → is_orphan n ≡ false

  pub Served-kept :
      (t t' : BlockTree) (q : Ref) → Grown c t t' → Steady c t q → Served t q → Served t' q
  Served-kept t t' q g s h above r n at_q loads next same = elim (Bool-cases (is_orphan n)) [
    | inl waits ↦
        let before = g.kept q s.node s.loads s.steady in
        h above r n (ground (arith, s.loads, before, at_q)) (g.waiting r n loads waits) next same
    | inr steady ↦ steady
  ]

  module _ (p : Platform) (g : Globals) where
    -- The node at `a` is preferred to the node at `b`, or is that node.
    abbrev pub AtLeast : BlockTree → Ref → Ref → Type 0
    AtLeast t a b =
        (m n : ChainNode)
        → get_chain_node c t a ≡ ok m
        → get_chain_node c t b ≡ ok n
        → chain_node_max p g m n ≡ ok true

    pub AtLeast-kept :
        (t t' : BlockTree) (a b : Ref)
        → Grown c t t'
        → Steady c t a
        → Steady c t b
        → AtLeast t a b
        → AtLeast t' a b
    AtLeast-kept t t' a b g' x y h m n first second =
        h m n (x.loads ∙ sym (g'.kept a x.node x.loads x.steady) ∙ first)
          (y.loads ∙ sym (g'.kept b y.node y.loads y.steady) ∙ second)

    pub AtLeast-trans :
        (t : BlockTree) (a b d : Ref)
        → IsRanking p g
        → Steady c t b
        → AtLeast t a b
        → AtLeast t b d
        → AtLeast t a d
    AtLeast-trans t a b d rank s h k m n first last =
        rank.trans m s.node n (h m s.node first s.loads) (k s.node n s.loads last)

    -- The choice is preferred to the node at `b`.
    abbrev pub Overtakes : BlockTree → Option Ref → Ref → Type 0
    Overtakes t best b = (d : Ref) × (best ≡ some d) × AtLeast t d b

    pub Overtakes-trans :
        (t u : BlockTree) (best : Option Ref) (b d : Ref)
        → IsRanking p g
        → Grown c t u
        → Steady c t b
        → Steady c t d
        → AtLeast t b d
        → Overtakes u best b
        → Overtakes u best d
    Overtakes-trans t u best b d rank grown x y h (e, chosen, over) = (
      e,
      chosen,
      AtLeast-trans u e b d rank (Steady-kept c t u b grown x) over
          (AtLeast-kept t u b d grown x y h),
    )

    -- What the search for the children of `parent` leaves of the tree `t`. `start` is the best node so far.
    pub record Adopted (t : BlockTree) (parent : Ref) (start : Option Ref)
        (r : Run (BlockTree × Option Ref)) : Type 0 where
      pub tree : BlockTree
      pub best : Option Ref
      pub returns : r ≡ ok (tree, best)
      pub grown : Grown c t tree
      pub heir : (b : Ref) → best ≡ some b → Descends c tree b parent
      pub served : Served tree parent
      pub all_served :
          (q : Ref) (n : ChainNode)
          → get_chain_node c t q ≡ ok n
          → is_orphan n ≡ true
          → Steady c tree q
          → Served tree q
      pub lower : (q : Ref) → Steady c tree q → q.level ≤ parent.level → Steady c t q
      pub over : IsRanking p g → (b : Ref) → start ≡ some b → Overtakes tree best b
      pub greatest :
          IsRanking p g → (q : Ref) → Steady c tree q → Steady c t q ⊎ Overtakes tree best q

  module _ (p : Platform) (g : Globals)
      (prefers : (a b : ChainNode) → (first : Bool) × (chain_node_max p g a b ≡ ok first)) where
    pub AtLeast-refl : (t : BlockTree) (a : Ref) → IsRanking p g → AtLeast p g t a a
    AtLeast-refl t a rank m n first second =
        subst (λ x. chain_node_max p g m x ≡ ok true) (ground (arith, first, second)) (rank.same m)

    -- What the fork choice says of two nodes of the tree.
    pub AtLeast-max :
        (t : BlockTree) (a b : Ref) (x : Steady c t a) (y : Steady c t b)
        → chain_node_max p g x.node y.node ≡ ok true
        → AtLeast p g t a b
    AtLeast-max t a b x y h m n first second =
        ap (λ k. chain_node_max p g k n) (ground (arith, x.loads, first))
        ∙ ap (chain_node_max p g x.node) (ground (arith, y.loads, second))
        ∙ h

    prefer-Descends :
        (t : BlockTree) (a b parent : Ref)
        → Descends c t a parent
        → Descends c t b parent
        → (r : Ref) × (prefer c p g t a b ≡ ok r)
          × Descends c t r parent
          × (IsRanking p g → AtLeast p g t r a × AtLeast p g t r b)
    unfolding prefer
    prefer-Descends t a b parent x y =
        let (first, chosen) = prefers x.top.node y.top.node in
        elim (Bool-cases first) [
          | inl e ↦ (
            a,
            ground (arith, x.top.loads, y.top.loads, chosen, e),
            x,
            λ rank. (AtLeast-refl t a rank, AtLeast-max t a b x.top y.top (chosen ∙ ap ok e)),
          )
          | inr e ↦ (
            b,
            ground (arith, x.top.loads, y.top.loads, chosen, e),
            y,
            λ rank. (
              AtLeast-max t b a y.top x.top (rank.total x.top.node y.top.node (chosen ∙ ap ok e)),
              AtLeast-refl t b rank,
            ),
          )
        ]

    pub prefer_new-Descends :
        (t : BlockTree) (best : Option Ref) (r parent : Ref)
        → ((b : Ref) → best ≡ some b → Descends c t b parent)
        → Descends c t r parent
        → (b : Ref) × (prefer_new c p g t best r ≡ ok b)
          × Descends c t b parent
          × (IsRanking p g → ((a : Ref) → best ≡ some a → AtLeast p g t b a) × AtLeast p g t b r)
    unfolding prefer_new
    prefer_new-Descends t none r parent h d =
        (r, refl, d, λ rank. (λ a e. absurd (ground (arith, e)), AtLeast-refl t r rank))
    prefer_new-Descends t (some b) r parent h d =
        let (x, done, descends, won) = prefer-Descends t b r parent (h b refl) d in
        (
          x,
          done,
          descends,
          λ rank. (λ a e. subst (AtLeast p g t x) (some-inj b a e) (won rank).0, (won rank).1),
        )

    pub prefer_aux-Descends :
        (t : BlockTree) (r : Ref) (aux : Option Ref) (parent : Ref)
        → Descends c t r parent
        → ((b : Ref) → aux ≡ some b → Descends c t b parent)
        → (b : Ref) × (prefer_aux c p g t r aux ≡ ok b)
          × Descends c t b parent
          × (IsRanking p g → AtLeast p g t b r × ((a : Ref) → aux ≡ some a → AtLeast p g t b a))
    unfolding prefer_aux
    prefer_aux-Descends t r none parent d h =
        (r, refl, d, λ rank. (AtLeast-refl t r rank, λ a e. absurd (ground (arith, e))))
    prefer_aux-Descends t r (some b) parent d h =
        let (x, done, descends, won) = prefer-Descends t r b parent d (h b refl) in
        (
          x,
          done,
          descends,
          λ rank. ((won rank).0, λ a e. subst (AtLeast p g t x) (some-inj b a e) (won rank).1),
        )
