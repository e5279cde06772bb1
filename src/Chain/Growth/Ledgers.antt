-- ===== src/Chain/Growth/Ledgers.antt =====
-- addBlock of RBlockSim/src/Block.c as a whole, the choice of the main chain included, against the
-- specification of the main chain in Chain.Switch.Ledger.
use rblock_sim_reproducibili.Base.{
  ℕ, ◌+◌, ◌*◌, ◌≤◌, ◌<◌, ◌≡◌, refl, ap, sym, subst, ◌∙◌, Bool, inl, inr, none, some, arith, List,
  Option-cases,
}
use rblock_sim_reproducibili.Run.{ok, ◌>>=◌}
use rblock_sim_reproducibili.Platform.{Double, Platform, BitmapLaws}
use rblock_sim_reproducibili.Config.{Constants, Globals}
use rblock_sim_reproducibili.Transaction.{TransactionState}
use rblock_sim_reproducibili.Statistics.{StatsState}
use rblock_sim_reproducibili.Chain.{Block, BlockTree, ChainNode, Ref}
use rblock_sim_reproducibili.Chain.ForkChoice.{chain_node_max}
use rblock_sim_reproducibili.Chain.ForkChoice.Order.{IsRanking}
use rblock_sim_reproducibili.Chain.Switch.{World}
use rblock_sim_reproducibili.Chain.Switch.Ledger.{ChainFits}
use rblock_sim_reproducibili.Chain.Switch.Paths.{Branch, Branch-level}
use rblock_sim_reproducibili.Chain.Growth.{attach_block, add_block, make_room}
use rblock_sim_reproducibili.Chain.Growth.Adoption.{AtLeast, some-inj}
use rblock_sim_reproducibili.Chain.Growth.Attachment.{attach_block-Attached}
use rblock_sim_reproducibili.Chain.Growth.Following.{
  Follows, IsBest, maybe_switch_chains-Follows, Attached-Follows, Attached-either,
}

module _ (p : Platform) (laws : BitmapLaws p) (c : Constants) (g : Globals) (me : ℕ)
    (s : TransactionState) (z : StatsState) where
  module _ (prefers : (a b : ChainNode) → (first : Bool) × (chain_node_max p g a b ≡ ok first))
      (base : Ref) (now : Double) (b : Block) (w : World) (f : Follows p laws c g me s z base w)
      (above : base.level < b.height)
      (high : b.height < w.chain.tree.min_height + 3 * c.depth_to_keep)
      (kept : (make_room c w.chain.tree b.height).min_height ≤ base.level)
      (fits : (t : BlockTree) (place best : Ref) (ns : List ChainNode)
        → attach_block c p g now w.chain.tree b ≡ ok (t, place, some best)
        → Branch c t best base ns
        → ChainFits p laws c g me s z base.level ns) where
    add_block_result :
        (v : World) × (r : Ref) × (add_block c p g me now w b ≡ ok (v, r))
        × Follows p laws c g me s z base v
        × (IsRanking p g → IsBest c p g w → IsBest c p g v)
    unfolding add_block
    add_block_result =
        let run = attach_block c p g now w.chain.tree b in
        let a =
          attach_block-Attached c now b p g prefers w.chain.tree (omega (arith, f.rooted.inside))
            f.sound.tree (omega (arith, f.rooted.inside)) high in
        let under : a.tree.min_height ≤ base.level = omega (arith, a.min_height, kept) in
        let placed = Attached-Follows p laws c g me s z prefers base now b w run a above under f in
        elim (Option-cases a.best) [
          | inl lone ↦
              let attached : run ≡ ok (a.tree, a.place, none) =
                a.returns ∙ ap (λ x. ok (a.tree, a.place, x)) lone in
              (
                record w { chain = record (w.chain) { tree = a.tree } },
                a.place,
                rw (attached, ◌>>=◌) refl,
                placed,
                λ rank before q steady.
                    elim (Attached-either p laws c g me s z prefers base now b w run a under f rank
                      before q steady) [
                        | inl over ↦ over
                        | inr (x, e, over) ↦ absurd (ground (arith, e, lone))
                      ],
              )
          | inr (best, chosen) ↦
              let attached : run ≡ ok (a.tree, a.place, some best) =
                a.returns ∙ ap (λ x. ok (a.tree, a.place, x)) chosen in
              let heir = (a.leads best chosen).1 in
              let top = heir.top in
              let d =
                placed.rooted.all best top
                  (omega (arith, Branch-level c a.tree heir.path, a.at_height)) in
              let (v, done, after, greatest) =
                maybe_switch_chains-Follows p laws c g me s z prefers base
                  (record w { chain = record (w.chain) { tree = a.tree } }) best d.blocks placed top
                  d.path (fits a.tree a.place best d.blocks attached d.path) in
              (
                v,
                a.place,
                rw (attached, ◌>>=◌) (rw (done, ◌>>=◌) refl),
                after,
                λ rank before. greatest rank (λ q steady.
                    elim (Attached-either p laws c g me s z prefers base now b w run a under f rank
                      before q steady) [
                        | inl over ↦ inl over
                        | inr (x, e, over) ↦ inr (
                            subst (λ y. AtLeast c p g a.tree y q) (some-inj x best (sym e ∙ chosen))
                              over)
                      ]),
              )
        ]

    -- `addBlock` always returns, and the node keeps following its main chain. Assumes that the window
    -- keeps the base once it has room for the block, that the block is above the base by less than the
    -- window allows, and that the chain that may become the main one can be applied to the base.
    pub add_block-Follows :
        (v : World) × (r : Ref) × (add_block c p g me now w b ≡ ok (v, r))
        × Follows p laws c g me s z base v
    add_block-Follows = let (v, r, done, after, best) = add_block_result in (v, r, done, after)

    -- From a state whose main chain is preferred to every node of the tree that is no orphan, `addBlock`
    -- returns one of which the same is true, for the new node and the orphans that it brings too.
    -- Assumes what `add_block-Follows` assumes, and that the fork choice is an order, as it is at
    -- every node that is no attacker.
    pub add_block-IsBest :
        IsRanking p g
        → IsBest c p g w
        → (v : World) × (r : Ref) × (add_block c p g me now w b ≡ ok (v, r)) × IsBest c p g v
    add_block-IsBest rank before =
        let (v, r, done, after, best) = add_block_result in (v, r, done, best rank before)
