-- ===== src/Chain/Growth/Following.antt =====
-- The choice of the main chain in addBlock of RBlockSim/src/Block.c, maybeSwitchChains, against the
-- specification of the main chain in Chain.Switch.Ledger.
use rblock_sim_reproducibili.Base.{
  ◌⊎◌, ℕ, ◌≤◌, ◌<◌, ◌≡◌, refl, ap, sym, subst, ◌∙◌, Bool-cases, Bool, not, ◌&&◌, inl, inr, arith,
  List, Option,
}
use rblock_sim_reproducibili.Run.{Run, ok, ◌>>=◌}
use rblock_sim_reproducibili.Platform.{Double, Platform, BitmapLaws}
use rblock_sim_reproducibili.Config.{Constants, Globals}
use rblock_sim_reproducibili.Transaction.{TransactionState}
use rblock_sim_reproducibili.Statistics.{StatsState}
use rblock_sim_reproducibili.Chain.{
  Block, BlockTree, ChainNode, Ref, same_ref, get_main_chain, main_ref,
}
use rblock_sim_reproducibili.Chain.ForkChoice.{chain_node_max}
use rblock_sim_reproducibili.Chain.ForkChoice.Order.{IsRanking}
use rblock_sim_reproducibili.Chain.Switch.{World, maybe_switch_chains}
use rblock_sim_reproducibili.Chain.Switch.Ledger.{Agrees, ChainFits}
use rblock_sim_reproducibili.Chain.Switch.Paths.{Branch, Branch-level}
use rblock_sim_reproducibili.Chain.Switch.Refinement.{switch_chains_refines}
use rblock_sim_reproducibili.Chain.Growth.Grown.{Steady}
use rblock_sim_reproducibili.Chain.Growth.Adoption.{
  AtLeast, AtLeast-refl, AtLeast-max, AtLeast-trans, Steady-inside, Overtakes,
}
use rblock_sim_reproducibili.Chain.Growth.Attachment.{Attached}
use rblock_sim_reproducibili.Chain.Growth.Sound.{IsSound}
use rblock_sim_reproducibili.Chain.Growth.Rooted.{
  IsRooted, IsRooted-Located, Attached-IsRooted, Attached-Branch,
}

-- A node that is preferred to the only other candidate is preferred to all.
greater :
    (c : Constants) (p : Platform) (g : Globals) (t : BlockTree) (a b : Ref)
    → IsRanking p g
    → Steady c t b
    → AtLeast c p g t a b
    → ((q : Ref) → Steady c t q → AtLeast c p g t a q ⊎ AtLeast c p g t b q)
    → (q : Ref) → Steady c t q
    → AtLeast c p g t a q
greater c p g t a b rank s h either q t' = elim (either q t') [
  | inl over ↦ over
  | inr under ↦ AtLeast-trans c p g t a b q rank s h under
]

-- The main chain is preferred to every node of the tree that is no orphan.
abbrev pub IsBest : Constants → Platform → Globals → World → Type 0
IsBest c p g w =
    (q : Ref) → Steady c w.chain.tree q → AtLeast c p g w.chain.tree (main_ref w.chain) q

module _ (p : Platform) (laws : BitmapLaws p) (c : Constants) (g : Globals) (me : ℕ)
    (s : TransactionState) (z : StatsState) where
  -- The node's state follows its main chain from `base` up: the tree is sound, no fork is deeper than the
  -- base, and what the node derives from the main chain is the ledger of its blocks.
  pub record Follows (base : Ref) (w : World) : Type 0 where
    pub sound : IsSound c w.chain.tree
    pub rooted : IsRooted c w.chain.tree base
    pub main : Steady c w.chain.tree (main_ref w.chain)
    pub blocks : List ChainNode
    pub path : Branch c w.chain.tree (main_ref w.chain) base blocks
    pub fits : ChainFits p laws c g me s z base.level blocks
    pub ledger : Agrees p laws c g me s z blocks w

  module _ (prefers : (a b : ChainNode) → (first : Bool) × (chain_node_max p g a b ≡ ok first))
      (base : Ref) where
    -- Choosing between the main chain and a node that descends from the base.
    pub maybe_switch_chains-Follows :
        (w : World) (best : Ref) (ns : List ChainNode)
        → Follows base w
        → Steady c w.chain.tree best
        → Branch c w.chain.tree best base ns
        → ChainFits p laws c g me s z base.level ns
        → (v : World) × (maybe_switch_chains p g me c w best best.index ≡ ok v)
          × Follows base v
          × (IsRanking p g
              → ((q : Ref)
                  → Steady c w.chain.tree q
                  → AtLeast c p g w.chain.tree (main_ref w.chain) q
                    ⊎ AtLeast c p g w.chain.tree best q)
              → IsBest c p g v)
    unfolding maybe_switch_chains get_main_chain
    maybe_switch_chains-Follows w best ns f top path fits =
        let (keep, chosen) = prefers f.main.node top.node in
        elim (Bool-cases (keep && not (same_ref (main_ref w.chain) best))) [
          | inl stays ↦ (
            w,
            rw (f.main.loads, ◌>>=◌) (rw (top.loads, ◌>>=◌) (rw (chosen, ◌>>=◌) (rw stays refl))),
            f,
            λ rank either.
                greater c p g w.chain.tree (main_ref w.chain) best rank top
                  (AtLeast-max c p g prefers w.chain.tree (main_ref w.chain) best f.main top
                    (ground (arith, chosen, stays)))
                  either,
          )
          | inr goes ↦
              let (v, done, ledger, chain) =
                switch_chains_refines p laws c g me s z w base best best.index f.blocks ns
                  (IsRooted-Located c w.chain.tree base f.sound.tree f.rooted) f.path path f.fits
                  fits f.ledger in
              let tree : v.chain.tree ≡ w.chain.tree = ground (arith, chain) in
              let main : main_ref v.chain ≡ best = ground (arith, chain) in
              (
                v,
                rw (f.main.loads, ◌>>=◌)
                    (rw (top.loads, ◌>>=◌) (rw (chosen, ◌>>=◌) (rw goes done))),
                record {
                  sound = subst (IsSound c) (sym tree) f.sound;
                  rooted = subst (λ t. IsRooted c t base) (sym tree) f.rooted;
                  main =
                      subst (λ t. Steady c t (main_ref v.chain)) (sym tree)
                        (subst (Steady c w.chain.tree) (sym main) top);
                  blocks = ns;
                  path =
                      subst (λ t. Branch c t (main_ref v.chain) base ns) (sym tree)
                        (subst (λ r. Branch c w.chain.tree r base ns) (sym main) path);
                  fits = fits;
                  ledger = ledger;
                },
                λ rank either.
                    subst
                      (λ (x : BlockTree × Ref).
                        (q : Ref) → Steady c x.0 q → AtLeast c p g x.0 x.1 q)
                      (ground (arith, tree, main))
                      (greater c p g w.chain.tree best (main_ref w.chain) rank f.main
                        (elim (Bool-cases keep) [
                          | inl kept ↦
                              subst (λ r. AtLeast c p g w.chain.tree r (main_ref w.chain))
                                (ground (arith, kept, goes))
                                (AtLeast-refl c p g prefers w.chain.tree (main_ref w.chain) rank)
                          | inr less ↦
                              AtLeast-max c p g prefers w.chain.tree best (main_ref w.chain) top
                                f.main (rank.total f.main.node top.node (chosen ∙ ap ok less))
                        ])
                        (λ q s. elim (either q s) [ inl over ↦ inr over | inr over ↦ inl over ])),
              )
        ]

    -- The state with the attached block, before the main chain is chosen.
    pub Attached-Follows :
        (now : Double) (b : Block) (w : World) (run : Run (BlockTree × Ref × Option Ref))
        → (a : Attached c now b p g w.chain.tree run) → base.level < b.height
        → a.tree.min_height ≤ base.level
        → Follows base w
        → Follows base (record w { chain = record (w.chain) { tree = a.tree } })
    Attached-Follows now b w run a above kept f = record {
      sound = record { tree = a.shape; complete = a.complete f.sound.complete };
      rooted = Attached-IsRooted c now b p g w.chain.tree run a base f.rooted above kept;
      main = record {
        node = f.main.node;
        loads =
            a.kept (main_ref w.chain) f.main.node f.main.loads f.main.steady
              (omega (arith, kept, Branch-level c w.chain.tree f.path));
        steady = f.main.steady;
      };
      blocks = f.blocks;
      path =
          Attached-Branch c now b p g w.chain.tree run a base f.rooted above kept f.sound.tree
            f.main f.path;
      fits = f.fits;
      ledger = record {
        view = f.ledger.view;
        viewed = f.ledger.viewed;
        valid = f.ledger.valid;
        marks = f.ledger.marks;
        counted = f.ledger.counted;
      };
    }

    -- What the main chain, or else the new candidate, is preferred to once the block is attached.
    pub Attached-either :
        (now : Double) (b : Block) (w : World) (run : Run (BlockTree × Ref × Option Ref))
        (a : Attached c now b p g w.chain.tree run)
        → a.tree.min_height ≤ base.level
        → Follows base w
        → IsRanking p g
        → IsBest c p g w
        → (q : Ref) → Steady c a.tree q
        → AtLeast c p g a.tree (main_ref w.chain) q ⊎ Overtakes c p g a.tree a.best q
    Attached-either now b w run a kept f rank before q s = elim (a.greatest rank q s) [
      | inr over ↦ inr over
      | inl old ↦
          let main =
            a.kept (main_ref w.chain) f.main.node f.main.loads f.main.steady
              (omega (arith, kept, Branch-level c w.chain.tree f.path)) in
          let same =
            a.kept q old.node old.loads old.steady (Steady-inside c a.tree q a.shape s).0 in
          inl (λ m n first second.
            before q old m n (f.main.loads ∙ sym main ∙ first) (old.loads ∙ sym same ∙ second))
    ]
