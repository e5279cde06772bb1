-- ===== src/Chain/Growth/Rooted.antt =====
-- The common ancestor of the branches of the tree of RBlockSim/src/Block.c, as addBlock attaches blocks.
use rblock_sim_reproducibili.Base.{
  ℕ, zero, suc, ◌+◌, ◌-◌, ◌≤◌, ◌<◌, ◌≡◌, refl, subst, arith, List, [], Option,
}
use rblock_sim_reproducibili.Run.{Run}
use rblock_sim_reproducibili.Platform.{Double, Platform}
use rblock_sim_reproducibili.Config.{Constants, Globals}
use rblock_sim_reproducibili.Chain.{Block, BlockTree, ChainNode, Ref}
use rblock_sim_reproducibili.Chain.Switch.Paths.{Branch, Branch-level, here, up, Located}
use rblock_sim_reproducibili.Chain.Growth.Tree.{IsTree}
use rblock_sim_reproducibili.Chain.Growth.Grown.{Steady, Descends, Descends-up, Branch-kept}
use rblock_sim_reproducibili.Chain.Growth.Attachment.{Attached}

module _ (c : Constants) where
  -- All the nodes from the height of `base` on that are no orphans descend from it: no fork is deeper.
  pub record IsRooted (t : BlockTree) (base : Ref) : Type 0 where
    pub bottom : Steady c t base
    pub inside : t.min_height ≤ base.level
    pub all : (q : Ref) → Steady c t q → base.level ≤ q.level → Descends c t q base

  pub IsRooted-Located :
      (t : BlockTree) (base : Ref) → IsTree c t → IsRooted t base → Located c t base
  IsRooted-Located t base tree r = record {
    node = r.bottom.node;
    loads = r.bottom.loads;
    stands = tree.stands base r.bottom.node r.bottom.loads;
  }

  pub Branch-flat :
      (t : BlockTree) {r a : Ref} {ns : List ChainNode}
      → Branch c t r a ns
      → r.level ≡ a.level
      → r ≡ a
  Branch-flat t here e = refl
  Branch-flat t (up n loads stands positive linked rest) e =
      absurd (ground (arith, Branch-level c t rest))

  module _ (now : Double) (b : Block) (p : Platform) (g : Globals) (t : BlockTree)
      (run : Run (BlockTree × Ref × Option Ref)) (a : Attached c now b p g t run) (base : Ref)
      (rooted : IsRooted t base) (above : base.level < b.height)
      (kept : a.tree.min_height ≤ base.level) where
    -- The new node, and the orphans that it brings, descend from the base too.
    Attached-Descends :
        (k : ℕ) (q : Ref) → Steady c a.tree q → q.level ≡ base.level + k → Descends c a.tree q base
    Attached-Descends zero q s level =
        let old = a.lower q s (omega arith) in
        let e = Branch-flat t (rooted.all q old (omega arith)).path (omega arith) in
        subst (Descends c a.tree q) e (record { top = s; blocks = []; path = here })
    Attached-Descends (suc k) q s level =
        let h = a.shape.parents q s.node s.loads s.steady (omega arith) in
        let stands = a.shape.stands q s.node s.loads in
        let parent : Ref = record { level = q.level - 1; index = s.node.parent } in
        Descends-up c a.tree q parent base s.node s.loads s.steady stands (omega arith)
          (ground (arith, stands))
          (Attached-Descends k parent
            (record { node = h.above; loads = h.loads; steady = h.steady }) (omega arith))

    pub Attached-IsRooted : IsRooted a.tree base
    Attached-IsRooted = record {
      bottom = record {
        node = rooted.bottom.node;
        loads = a.kept base rooted.bottom.node rooted.bottom.loads rooted.bottom.steady kept;
        steady = rooted.bottom.steady;
      };
      inside = kept;
      all = λ q s higher. Attached-Descends (q.level - base.level) q s (omega arith);
    }

    -- A branch from the base is as it was.
    pub Attached-Branch :
        {r : Ref} {ns : List ChainNode}
        → IsTree c t
        → Steady c t r
        → Branch c t r base ns
        → Branch c a.tree r base ns
    Attached-Branch tree s path =
        Branch-kept c t a.tree a.tree.min_height path a.kept tree s rooted.inside kept
