-- ===== src/Chain/Switch/Paths.antt =====
-- Paths along the parent links of the tree of blocks, and where the loops of switchChains
-- (RBlockSim/src/Block.c) leave them.
use rblock_sim_reproducibili.Base.{
  ℕ, zero, suc, ◌+◌, ◌-◌, ◌≤◌, ◌<◌, ◌≡◌, refl, ap, ◌⊎◌, inl, inr, Bool-cases, List, [], ◌∷◌, length,
  arith, ltb,
}
use rblock_sim_reproducibili.Run.{Run, ok}
use rblock_sim_reproducibili.Config.{Constants}
use rblock_sim_reproducibili.Chain.{BlockTree, ChainNode, Ref, get_chain_node, get_parent_ref}
use rblock_sim_reproducibili.Chain.Switch.{descend_new}
use rblock_sim_reproducibili.Platform.{Platform}
use rblock_sim_reproducibili.Config.{Globals}

abbrev pub parent_of : ChainNode → Ref
parent_of n = record { level = n.height - 1; index = n.parent }

module _ (c : Constants) (t : BlockTree) where
  -- The pointer leads to a node that stands at its own height.
  pub record Located (r : Ref) : Type 0 where
    pub node : ChainNode
    pub loads : get_chain_node c t r ≡ ok node
    pub stands : node.height ≡ r.level

  -- The nodes from `r` down to, and without, `a`.
  pub data Branch : Ref → Ref → List ChainNode → Type 0 where
    here : {r : Ref} → Branch r r []
    up :
        {r a : Ref} {ns : List ChainNode}
        → (n : ChainNode) → get_chain_node c t r ≡ ok n
        → n.height ≡ r.level
        → 0 < r.level
        → get_parent_ref c t n ≡ ok (parent_of n)
        → Branch (parent_of n) a ns
        → Branch r a (n ∷ ns)

  pub Branch-level :
      {r a : Ref} {ns : List ChainNode} → Branch r a ns → r.level ≡ a.level + length ns
  Branch-level here = omega arith
  Branch-level (up n loads stands above linked rest) = omega (arith, Branch-level rest)

  pub Branch-Located : {r a : Ref} {ns : List ChainNode} → Branch r a ns → Located a → Located r
  Branch-Located here l = l
  Branch-Located (up n loads stands above linked rest) l = record {
    node = n;
    loads = loads;
    stands = stands;
  }

  -- The nodes between two pointers are determined.
  pub Branch-unique :
      {r r' a a' : Ref} {ns ms : List ChainNode}
      → Branch r a ns
      → Branch r' a' ms
      → r ≡ r'
      → a ≡ a'
      → ns ≡ ms
  Branch-unique here here e f = refl
  Branch-unique here (up n loads stands above linked rest) e f =
      absurd (ground (arith, Branch-level rest))
  Branch-unique (up n loads stands above linked rest) here e f =
      absurd (ground (arith, Branch-level rest))
  Branch-unique (up n loads stands above linked rest) (up m loads' stands' above' linked' rest') e
        f =
      let same : n ≡ m = cc in cc (Branch-unique rest rest' (ap parent_of same) f)

-- The entries of a list, last one first, in front of another list.
abbrev pub rev_onto {ℓ} : {A : Type ℓ} → List A → List A → List A
rev_onto [] ys = ys
rev_onto (x ∷ xs) ys = rev_onto xs (x ∷ ys)

module _ (p : Platform) (g : Globals) (me : ℕ) (c : Constants) (t : BlockTree) (base : Ref)
    (bottom : Located c t base) where
  -- What the first loop returns: a pointer on the path, at height `h` or where it started, with the
  -- nodes that it passed on the way.
  pub record DescendedNew (h : ℕ) (start : Ref) (whole : List ChainNode)
      (r : Run (Ref × List ChainNode)) : Type 0 where
    pub walker : Ref
    pub passed : List ChainNode
    pub left : List ChainNode
    pub returns : r ≡ ok (walker, passed)
    pub path : Branch c t walker base left
    pub kept : rev_onto passed left ≡ whole
    pub low : walker.level ≤ h
    pub below : walker.level ≤ start.level
    pub stopped : (walker.level ≡ h) ⊎ (walker.level ≡ start.level)

  pub descend_new-Descended :
      (f h : ℕ) {start : Ref} {ns : List ChainNode} (to_apply : List ChainNode)
      → Branch c t start base ns
      → base.level ≤ h
      → start.level < f + h
      → 0 < f
      → DescendedNew h start (rev_onto to_apply ns) (descend_new p g me c f t h start to_apply)
  unfolding descend_new
  descend_new-Descended zero h to_apply path above fuel pos = absurd (omega arith)
  descend_new-Descended (suc f) h to_apply here above fuel pos = record {
    walker = base;
    passed = to_apply;
    left = [];
    returns = ground (arith, bottom.loads, bottom.stands);
    path = here;
    kept = refl;
    low = above;
    below = omega arith;
    stopped = inr refl;
  }
  descend_new-Descended (suc f) h {start = start} to_apply
        (up {ns = ns} n loads stands pos' linked rest) above fuel pos =
      elim (Bool-cases (ltb h n.height)) [
        | inl higher ↦
            let r =
              descend_new-Descended f h (n ∷ to_apply) rest above (ground arith) (ground arith) in
            record {
              walker = r.walker;
              passed = r.passed;
              left = r.left;
              returns = ground (arith, loads, higher, linked, r.returns);
              path = r.path;
              kept = r.kept;
              low = r.low;
              below = ground (arith, r.below);
              stopped = ground (
                arith,
                r.stopped,
                r.below,
                r.low,
                Branch-level c t r.path,
                Branch-level c t rest,
              );
            }
        | inr lower ↦ record {
          walker = start;
          passed = to_apply;
          left = n ∷ ns;
          returns = ground (arith, loads, lower);
          path = up n loads stands pos' linked rest;
          kept = refl;
          low = ground arith;
          below = omega arith;
          stopped = inr refl;
        }
      ]
