-- ===== src/Chain/Switch/Loops.antt =====
-- The loops of switchChains of RBlockSim/src/Block.c, each one between ledgers of main chains.
use rblock_sim_reproducibili.Base.{
  ℕ, zero, suc, ◌+◌, ◌≤◌, ◌<◌, ◌≡◌, refl, ap, ◌⊎◌, inl, inr, Bool-cases, List, [], ◌∷◌, length,
  arith, ltb,
}
use rblock_sim_reproducibili.Run.{Run, ok, ◌>>=◌}
use rblock_sim_reproducibili.Platform.{Platform, BitmapLaws}
use rblock_sim_reproducibili.Config.{Constants, Globals}
use rblock_sim_reproducibili.Transaction.{TransactionState}
use rblock_sim_reproducibili.Statistics.{StatsState}
use rblock_sim_reproducibili.Chain.{BlockTree, ChainNode, Ref, same_ref}
use rblock_sim_reproducibili.Chain.Levels.Nodes.{same_ref→eq, same_ref_refl}
use rblock_sim_reproducibili.Chain.Switch.{World, apply_all, descend_main, descend_both}
use rblock_sim_reproducibili.Chain.Switch.Ledger.{Agrees, ChainFits, apply-Agrees, revert-Agrees}
use rblock_sim_reproducibili.Chain.Switch.Paths.{
  Branch, Located, Branch-level, Branch-unique, here, up, rev_onto,
}

module _ (p : Platform) (laws : BitmapLaws p) (c : Constants) (g : Globals) (me : ℕ)
    (s : TransactionState) (z : StatsState) where
  abbrev IsLedger : List ChainNode → World → Type 0
  IsLedger = Agrees p laws c g me s z

  abbrev Fitting : ℕ → List ChainNode → Type 0
  Fitting = ChainFits p laws c g me s z

  -- The last loop applies the nodes in order.
  ChainFits-rev_onto :
      (base : ℕ) (l ns : List ChainNode) → Fitting base (rev_onto l ns) → Fitting base ns
  ChainFits-rev_onto base [] ns h = h
  ChainFits-rev_onto base (n ∷ l) ns h = (ChainFits-rev_onto base l (n ∷ ns) h).1

  pub record Applied (base : ℕ) (whole : List ChainNode) (w : World) (r : Run World) : Type 0 where
    pub after : World
    pub returns : r ≡ ok after
    pub agreed : IsLedger whole after
    pub tree : after.chain.tree ≡ w.chain.tree
    pub height : after.chain.height ≡ base + length whole

  pub apply_all-Applied :
      (base : ℕ) (l ns : List ChainNode) (w : World)
      → Fitting base (rev_onto l ns)
      → IsLedger ns w
      → w.chain.height ≡ base + length ns
      → Applied base (rev_onto l ns) w (apply_all p g me l w)
  unfolding apply_all
  apply_all-Applied base [] ns w h a e = record {
    after = w;
    returns = refl;
    agreed = a;
    tree = refl;
    height = e;
  }
  apply_all-Applied base (n ∷ l) ns w h a e =
      let node = (ChainFits-rev_onto base l (n ∷ ns) h).0 in
      let (v, done, b, chained) = apply-Agrees p laws c g me s z base n ns w node a in
      let r = apply_all-Applied base l (n ∷ ns) v h b (ground (arith, chained, node.height)) in
      record {
        after = r.after;
        returns = rw (done, ◌>>=◌) r.returns;
        agreed = r.agreed;
        tree = ground (arith, r.tree, chained);
        height = r.height;
      }

  module _ (t : BlockTree) (base : Ref) (bottom : Located c t base) where
    -- What the second loop returns.
    pub record DescendedMain (h : ℕ) (start : Ref) (r : Run (Ref × World)) : Type 0 where
      pub walker : Ref
      pub after : World
      pub left : List ChainNode
      pub returns : r ≡ ok (walker, after)
      pub path : Branch c t walker base left
      pub agreed : IsLedger left after
      pub fitting : Fitting base.level left
      pub tree : after.chain.tree ≡ t
      pub height : after.chain.height ≡ walker.level
      pub low : walker.level ≤ h
      pub below : walker.level ≤ start.level
      pub stopped : (walker.level ≡ h) ⊎ (walker.level ≡ start.level)

    pub descend_main-Descended :
        (f h : ℕ) (w : World) {start : Ref} {ns : List ChainNode}
        → Branch c t start base ns
        → IsLedger ns w
        → Fitting base.level ns
        → w.chain.tree ≡ t
        → w.chain.height ≡ start.level
        → base.level ≤ h
        → start.level < f + h
        → 0 < f
        → DescendedMain h start (descend_main p g me c f w h start)
    unfolding descend_main
    descend_main-Descended zero h w path a k e e' above fuel pos = absurd (omega arith)
    descend_main-Descended (suc f) h w here a k e e' above fuel pos = record {
      walker = base;
      after = w;
      left = [];
      returns = ground (arith, bottom.loads, bottom.stands);
      path = here;
      agreed = a;
      fitting = k;
      tree = e;
      height = e';
      low = above;
      below = omega arith;
      stopped = inr refl;
    }
    descend_main-Descended (suc f) h w {start = start}
          (up {ns = ns} n loads stands pos' linked rest) a k e e' above fuel pos =
        elim (Bool-cases (ltb h n.height)) [
          | inl higher ↦
              let (v, done, b, chained) = revert-Agrees p laws c g me s z base.level n ns w k.0 a in
              let kept : v.chain.tree ≡ t = ground (arith, chained) in
              let r =
                descend_main-Descended f h v rest b k.1 kept (ground (arith, chained)) above
                  (ground arith) (ground arith) in
              record {
                walker = r.walker;
                after = r.after;
                left = r.left;
                returns = ground (arith, loads, higher, done, linked, kept, r.returns);
                path = r.path;
                agreed = r.agreed;
                fitting = r.fitting;
                tree = r.tree;
                height = r.height;
                low = r.low;
                below = ground (arith, r.below);
                stopped = ground (
                  arith,
                  r.stopped,
                  r.below,
                  r.low,
                  Branch-level c t r.path,
                  Branch-level c t rest,
                );
              }
          | inr lower ↦ record {
            walker = start;
            after = w;
            left = n ∷ ns;
            returns = ground (arith, loads, lower);
            path = up n loads stands pos' linked rest;
            agreed = a;
            fitting = k;
            tree = e;
            height = e';
            low = ground arith;
            below = omega arith;
            stopped = inr refl;
          }
        ]

    -- What the third loop returns.
    pub record Met (whole : List ChainNode) (r : Run (World × List ChainNode)) : Type 0 where
      pub after : World
      pub passed : List ChainNode
      pub shared : List ChainNode
      pub returns : r ≡ ok (after, passed)
      pub agreed : IsLedger shared after
      pub kept : rev_onto passed shared ≡ whole
      pub tree : after.chain.tree ≡ t
      pub height : after.chain.height ≡ base.level + length shared

    pub descend_both-Met :
        (f : ℕ) (w : World) {main walker : Ref} {ms ns : List ChainNode} (to_apply : List ChainNode)
        → Branch c t main base ms
        → Branch c t walker base ns
        → main.level ≡ walker.level
        → IsLedger ms w
        → Fitting base.level ms
        → w.chain.tree ≡ t
        → w.chain.height ≡ main.level
        → main.level < f
        → Met (rev_onto to_apply ns) (descend_both p g me c f w main walker to_apply)
    unfolding descend_both
    descend_both-Met zero w to_apply path path' e a k e' e'' fuel = absurd (omega arith)
    descend_both-Met (suc f) w to_apply here here e a k e' e'' fuel = record {
      after = w;
      passed = to_apply;
      shared = [];
      returns = rw (same_ref_refl base, descend_both);
      agreed = a;
      kept = refl;
      tree = e';
      height = ground arith;
    }
    descend_both-Met (suc f) w to_apply here (up n loads stands above linked rest) e a k e' e''
          fuel =
        absurd (omega (arith, Branch-level c t rest))
    descend_both-Met (suc f) w to_apply (up n loads stands above linked rest) here e a k e' e''
          fuel =
        absurd (omega (arith, Branch-level c t rest))
    descend_both-Met (suc f) w {main = main} {walker = walker} to_apply
          (up {ns = ms} m loads stands above linked rest)
          (up {ns = ns} n loads' stands' above' linked' rest') e a k e' e'' fuel =
        elim (Bool-cases (same_ref main walker)) [
          | inl met ↦ record {
            after = w;
            passed = to_apply;
            shared = m ∷ ms;
            returns = rw (met, descend_both);
            agreed = a;
            kept = ap (rev_onto to_apply) (
                Branch-unique c t (up m loads stands above linked rest)
                  (up n loads' stands' above' linked' rest') (same_ref→eq main walker met) refl);
            tree = e';
            height = omega (arith, Branch-level c t rest);
          }
          | inr apart ↦
              let (v, done, b, chained) = revert-Agrees p laws c g me s z base.level m ms w k.0 a in
              let kept : v.chain.tree ≡ t = ground (arith, chained) in
              let r =
                descend_both-Met f v (n ∷ to_apply) rest rest' (omega arith) b k.1 kept
                  (ground (arith, chained)) (omega arith) in
              record {
                after = r.after;
                passed = r.passed;
                shared = r.shared;
                returns =
                    ground (arith, apart, loads, done, linked, kept, loads', linked', r.returns);
                agreed = r.agreed;
                kept = r.kept;
                tree = r.tree;
                height = r.height;
              }
        ]
