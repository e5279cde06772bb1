-- ===== src/Chain/Switch/Refinement.antt =====
-- switchChains of RBlockSim/src/Block.c against the specification of Ledger.
use rblock_sim_reproducibili.Base.{
  ℕ, ◌+◌, ◌≤◌, ◌≡◌, refl, sym, ◌∙◌, ap, subst, List, [], length, arith,
}
use rblock_sim_reproducibili.Run.{ok, ◌>>=◌}
use rblock_sim_reproducibili.Platform.{Platform, BitmapLaws}
use rblock_sim_reproducibili.Config.{Constants, Globals}
use rblock_sim_reproducibili.Transaction.{TransactionState}
use rblock_sim_reproducibili.Statistics.{StatsState}
use rblock_sim_reproducibili.Chain.{ChainNode, Ref, main_ref}
use rblock_sim_reproducibili.Chain.Switch.{World, switch_chains}
use rblock_sim_reproducibili.Chain.Switch.Ledger.{Agrees, ChainFits}
use rblock_sim_reproducibili.Chain.Switch.Paths.{
  Branch, Located, Branch-level, Branch-Located, rev_onto, descend_new-Descended,
}
use rblock_sim_reproducibili.Chain.Switch.Loops.{
  apply_all-Applied, descend_main-Descended, descend_both-Met,
}

module _ (p : Platform) (laws : BitmapLaws p) (c : Constants) (g : Globals) (me : ℕ)
    (s : TransactionState) (z : StatsState) where
  abbrev IsLedger : List ChainNode → World → Type 0
  IsLedger = Agrees p laws c g me s z

  abbrev Fitting : ℕ → List ChainNode → Type 0
  Fitting = ChainFits p laws c g me s z

  -- From the ledger of the old main chain, switching to a node that has an ancestor `base` in
  -- common with it always succeeds, and leaves the ledger of the new main chain, which ends in that
  -- node. The tree of blocks is untouched. Assumes that each block of both branches stands one
  -- level above its parent and lists transactions of the simulation that neither the blocks below
  -- it nor the base have executed.
  pub switch_chains_refines :
      (w : World) (base new : Ref) (index : ℕ) (old_blocks new_blocks : List ChainNode)
      → Located c w.chain.tree base
      → Branch c w.chain.tree (main_ref w.chain) base old_blocks
      → Branch c w.chain.tree new base new_blocks
      → Fitting base.level old_blocks
      → Fitting base.level new_blocks
      → IsLedger old_blocks w
      → (v : World) × (switch_chains p g me c w new index ≡ ok v)
        × IsLedger new_blocks v
        × (v.chain ≡ record { tree = w.chain.tree; main_chain_index = index; height = new.level })
  unfolding switch_chains
  switch_chains_refines w base new index old_blocks new_blocks bottom old_path new_path old_fits
        new_fits a =
      let t = w.chain.tree in
      let top = Branch-Located c t new_path bottom in
      let high : base.level ≤ w.chain.height = omega (arith, Branch-level c t old_path) in
      let high' : base.level ≤ top.node.height =
        omega (arith, Branch-level c t new_path, top.stands) in
      let r1 =
        descend_new-Descended p g me c t base bottom (top.node.height + 1) w.chain.height []
          new_path high (omega (arith, top.stands)) (omega arith) in
      let r2 =
        descend_main-Descended p laws c g me s z t base bottom (w.chain.height + 1) top.node.height
          w old_path a old_fits refl refl high' (omega arith) (omega arith) in
      let level : r2.walker.level ≡ r1.walker.level =
        ground (arith, r1.low, r1.below, r1.stopped, r2.low, r2.below, r2.stopped, top.stands) in
      let r3 =
        descend_both-Met p laws c g me s z t base bottom (r2.walker.level + 1) r2.after r1.passed
          r2.path r1.path level r2.agreed r2.fitting r2.tree r2.height (omega arith) in
      let whole : rev_onto r3.passed r3.shared ≡ new_blocks = r3.kept ∙ r1.kept in
      let r4 =
        apply_all-Applied p laws c g me s z base.level r3.passed r3.shared r3.after
          (subst (Fitting base.level) (sym whole) new_fits) r3.agreed r3.height in
      let b = subst (λ l. IsLedger l r4.after) whole r4.agreed in
      (
        record (r4.after) { chain = record (r4.after.chain) { main_chain_index = index } },
        rw (top.loads, r1.returns, ◌>>=◌)
            (rw (r2.returns, ◌>>=◌) (rw (r3.returns, ◌>>=◌) (rw (r4.returns, ◌>>=◌) refl))),
        record {
          view = b.view;
          viewed = b.viewed;
          valid = b.valid;
          marks = b.marks;
          counted = b.counted;
        },
        ground (arith, r4.tree, r3.tree, r4.height, ap length whole, Branch-level c t new_path),
      )
