-- ===== src/Chain/Growth/Waiting.antt =====
-- The orphans of the tree of RBlockSim/src/Block.c, and the nodes that they wait for.
use rblock_sim_reproducibili.Base.{
  ℕ, ◌+◌, ◌<◌, ◌≡◌, ap, subst, ◌∙◌, Bool-cases, inl, inr, true, false, arith, ◌==◌,
}
use rblock_sim_reproducibili.Run.{ok}
use rblock_sim_reproducibili.Config.{Constants}
use rblock_sim_reproducibili.Chain.{BlockTree, ChainNode, Ref, same_ref, is_orphan, get_chain_node}
use rblock_sim_reproducibili.Chain.Levels.Nodes.{PutNode, same_ref→eq}
use rblock_sim_reproducibili.Chain.Growth.Tree.{IsTree}
use rblock_sim_reproducibili.Chain.Growth.Grown.{Steady, Grown, node_stays, node_came}
use rblock_sim_reproducibili.Chain.Growth.Adoption.{Steady-inside, Served, Served-kept}
use rblock_sim_reproducibili.Chain.Growth.Room.{Trimmed}

module _ (c : Constants) where
  -- No earlier node of the level has the same miner: the search of `addBlock` finds this one.
  abbrev pub IsFirst : BlockTree → Ref → ChainNode → Type 0
  IsFirst t q above =
      (j : ℕ) (m : ChainNode)
      → j < q.index
      → get_chain_node c t (record { level = q.level; index = j }) ≡ ok m
      → (m.miner == above.miner) ≡ false

  -- No orphan waits for a node that the search for its parent finds.
  pub record IsComplete (t : BlockTree) : Type 0 where
    pub serves : (q : Ref) (s : Steady c t q) → IsFirst t q s.node → Served c t q

  -- The same but for the orphans that wait for the node at `r`.
  pub record IsCompleteBut (t : BlockTree) (r : Ref) : Type 0 where
    pub serves :
        (q : Ref) (s : Steady c t q) → same_ref r q ≡ false → IsFirst t q s.node → Served c t q

  pub IsCompleteBut-IsComplete :
      (t : BlockTree) (r : Ref) → IsCompleteBut t r → (Steady c t r → Served c t r) → IsComplete t
  IsCompleteBut-IsComplete t r h served = record {
    serves = λ q s first. elim (Bool-cases (same_ref r q)) [
      | inl here' ↦ subst (λ y. Steady c t y → Served c t y) (same_ref→eq r q here') served s
      | inr apart ↦ h.serves q s apart first
    ];
  }

  -- Trimming drops whole levels.
  pub Trimmed-IsComplete :
      (t t' : BlockTree) → Trimmed c t t' → IsTree c t' → IsComplete t → IsComplete t'
  Trimmed-IsComplete t t' trim tree h = record {
    serves = λ q s first above r n at_q loads next same.
        let before : Steady c t q = record {
          node = s.node;
          loads = trim.came q s.node s.loads;
          steady = s.steady;
        } in
        let low = (Steady-inside c t' q tree s).0 in
        h.serves q before
          (λ j m short loads'.
            first j m short (trim.stays (record { level = q.level; index = j }) m loads' low))
          above r n (trim.came q above at_q) (trim.came r n loads) next same;
  }

  -- Linking orphans completes the tree, when what is linked is served.
  pub Grown-IsComplete :
      (t t' : BlockTree) (r : Ref)
      → Grown c t t'
      → ((q : Ref) (n : ChainNode)
          → get_chain_node c t q ≡ ok n
          → is_orphan n ≡ true
          → Steady c t' q
          → Served c t' q)
      → Served c t' r
      → IsCompleteBut t r
      → IsComplete t'
  Grown-IsComplete t t' r g newly served h =
      IsCompleteBut-IsComplete t' r
        (record {
          serves = λ q s apart first.
              let (n, loads) = node_came c t t' q s.node g s.loads in
              elim (Bool-cases (is_orphan n)) [
                | inl waits ↦ newly q n loads waits s
                | inr steady ↦
                    let old : Steady c t q = record { node = n; loads = loads; steady = steady } in
                    let same = g.miners q n s.node loads s.loads in
                    let old_first : IsFirst t q n = λ j m short at.
                      let there : Ref = record { level = q.level; index = j } in
                      let (m', at') = node_stays c t t' there m g at in
                      ground (arith, same, g.miners there m m' at at', first j m' short at') in
                    Served-kept c t t' q g old (h.serves q old apart old_first)
              ];
        })
        (λ s. served)

  -- A new node keeps a tree complete but for what waits for it, unless it is an orphan itself and
  -- waits for a node that the search finds.
  pub put-IsCompleteBut :
      (t : BlockTree) (r : Ref) (m : ChainNode) (t' : BlockTree)
      → PutNode c t r m t'
      → ((n : ChainNode) → get_chain_node c t r ≡ ok n → m.miner ≡ n.miner)
      → ((q : Ref) (s : Steady c t q)
          → IsFirst t q s.node
          → r.level ≡ q.level + 1
          → m.parent ≡ s.node.miner
          → is_orphan m ≡ false)
      → IsComplete t
      → IsCompleteBut t' r
  put-IsCompleteBut t r m t' put same_miner alone h = record {
    serves = λ q s apart first above x n at_q loads next same.
        let old : Steady c t q = record {
          node = s.node;
          loads = ground (arith, put.reads q, apart, s.loads);
          steady = s.steady;
        } in
        let old_first : IsFirst t q s.node = λ j y short at.
          let there : Ref = record { level = q.level; index = j } in
          elim (Bool-cases (same_ref r there)) [
            | inl here' ↦
                let e = ap (get_chain_node c t) (same_ref→eq r there here') in
                ground (
                  arith,
                  first j m short (ground (arith, put.reads there, here')),
                  same_miner y (e ∙ at),
                )
            | inr apart' ↦ first j y short (ground (arith, put.reads there, apart', at))
          ] in
        elim (Bool-cases (same_ref r x)) [
          | inl here' ↦
              let e = same_ref→eq r x here' in
              let eq : m ≡ n = ground (arith, put.reads x, here', loads) in
              let parent : above ≡ s.node = ground (arith, at_q, s.loads) in
              ground (
                arith,
                eq,
                alone q old old_first (ground (arith, ap (λ (y : Ref). y.level) e, next))
                    (ground (arith, eq, parent, same)),
              )
          | inr apart' ↦
              h.serves q old old_first above x n (ground (arith, put.reads q, apart, at_q))
                (ground (arith, put.reads x, apart', loads)) next same
        ];
  }
