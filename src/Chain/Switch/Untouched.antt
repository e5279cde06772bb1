-- ===== src/Chain/Switch/Untouched.antt =====
-- switchChains and maybeSwitchChains of RBlockSim/src/Block.c, whenever they return, on the tree.
use rblock_sim_reproducibili.Base.{
  ℕ, zero, suc, ◌+◌, ◌≡◌, refl, ◌∙◌, not, ◌&&◌, arith, ltb, List, [], ◌∷◌,
}
use rblock_sim_reproducibili.Run.{
  Ensures, Ensures-ok, Ensures-bind, Ensures-then, Ensures-if, Ensures-map,
}
use rblock_sim_reproducibili.Platform.{Platform}
use rblock_sim_reproducibili.Config.{Constants, Globals}
use rblock_sim_reproducibili.Chain.{
  ChainNode, Ref, same_ref, get_chain_node, get_parent_ref, get_main_chain, main_ref,
}
use rblock_sim_reproducibili.Chain.ForkChoice.{chain_node_max}
use rblock_sim_reproducibili.Chain.Switch.{
  World, apply_txns, revert_txns, add_block_stats, remove_block_stats, apply_chain_node,
  revert_applied_chain_node, apply_all, descend_new, descend_main, descend_both, switch_chains,
  maybe_switch_chains,
}

module _ (p : Platform) (g : Globals) (me : ℕ) where
  abbrev SameTree : World → World → Type 0
  SameTree w v = v.chain.tree ≡ w.chain.tree

  apply_chain_node_tree :
      (w : World) (n : ChainNode) → Ensures (SameTree w) (apply_chain_node p g me w n)
  unfolding apply_chain_node
  apply_chain_node_tree w n = Ensures-then (apply_txns p g me w.txn n.transaction_data) (λ txn.
      Ensures-then (add_block_stats p g me g.stats_type w.stats n.miner)
        (λ stats. Ensures-ok (SameTree w) _ refl))

  revert_applied_chain_node_tree :
      (w : World) (n : ChainNode) → Ensures (SameTree w) (revert_applied_chain_node p g me w n)
  unfolding revert_applied_chain_node
  revert_applied_chain_node_tree w n =
      Ensures-then (revert_txns p g me w.txn n.transaction_data) (λ txn.
        Ensures-then (remove_block_stats p g me g.stats_type w.stats n.miner)
          (λ stats. Ensures-ok (SameTree w) _ refl))

  apply_all_tree : (ns : List ChainNode) (w : World) → Ensures (SameTree w) (apply_all p g me ns w)
  unfolding apply_all
  apply_all_tree [] w = Ensures-ok (SameTree w) w refl
  apply_all_tree (n ∷ ns) w =
      Ensures-bind (apply_chain_node p g me w n) (apply_chain_node_tree w n)
        (λ v same. Ensures-map (λ u later. later ∙ same) (apply_all_tree ns v))

  abbrev SameTreeBeside : {A : Type 0} → World → A × World → Type 0
  SameTreeBeside w r = SameTree w r.1

  abbrev SameTreeFirst : {A : Type 0} → World → World × A → Type 0
  SameTreeFirst w r = SameTree w r.0

  module _ (c : Constants) where
    descend_main_tree :
        (f : ℕ) (w : World) (height : ℕ) (walker : Ref)
        → Ensures (SameTreeBeside w) (descend_main p g me c f w height walker)
    unfolding descend_main
    descend_main_tree zero w height walker = record { holds = λ r e. absurd (ground (arith, e)) }
    descend_main_tree (suc f) w height walker =
        Ensures-then (get_chain_node c w.chain.tree walker) (λ n.
          Ensures-if (ltb height n.height)
            (λ higher.
              Ensures-bind (revert_applied_chain_node p g me w n)
                (revert_applied_chain_node_tree w n)
                (λ v same. Ensures-then (get_parent_ref c v.chain.tree n) (λ parent.
                  Ensures-map (λ r later. later ∙ same) (descend_main_tree f v height parent))))
            (λ low. Ensures-ok (SameTreeBeside w) (walker, w) refl))

    descend_both_tree :
        (f : ℕ) (w : World) (main walker : Ref) (to_apply : List ChainNode)
        → Ensures (SameTreeFirst w) (descend_both p g me c f w main walker to_apply)
    unfolding descend_both
    descend_both_tree zero w main walker to_apply = record {
      holds = λ r e. absurd (ground (arith, e));
    }
    descend_both_tree (suc f) w main walker to_apply =
        Ensures-if (same_ref main walker) (λ met. Ensures-ok (SameTreeFirst w) (w, to_apply) refl)
          (λ apart. Ensures-then (get_chain_node c w.chain.tree main) (λ m.
            Ensures-bind (revert_applied_chain_node p g me w m) (revert_applied_chain_node_tree w m)
              (λ v same. Ensures-then (get_parent_ref c v.chain.tree m) (λ below_main.
                Ensures-then (get_chain_node c v.chain.tree walker) (λ n.
                  Ensures-then (get_parent_ref c v.chain.tree n) (λ below_walker.
                    Ensures-map (λ r later. later ∙ same)
                      (descend_both_tree f v below_main below_walker (n ∷ to_apply))))))))

    -- Whenever switching chains returns, it leaves the tree as it was.
    switch_chains_tree :
        (w : World) (new : Ref) (index : ℕ)
        → Ensures (SameTree w) (switch_chains p g me c w new index)
    unfolding switch_chains
    switch_chains_tree w new index = Ensures-then (get_chain_node c w.chain.tree new) (λ top.
        Ensures-then (descend_new p g me c (top.height + 1) w.chain.tree w.chain.height new [])
          (λ first.
            Ensures-bind
              (descend_main p g me c (w.chain.height + 1) w top.height (main_ref w.chain))
              (descend_main_tree (w.chain.height + 1) w top.height (main_ref w.chain))
              (λ r same.
                Ensures-bind (descend_both p g me c (r.0.level + 1) r.1 r.0 first.0 first.1)
                  (descend_both_tree (r.0.level + 1) r.1 r.0 first.0 first.1)
                  (λ u still.
                    Ensures-bind (apply_all p g me u.1 u.0) (apply_all_tree u.1 u.0)
                      (λ v last. Ensures-ok (SameTree w) _ (last ∙ still ∙ same))))))

    pub maybe_switch_chains_tree :
        (w : World) (new : Ref) (index : ℕ)
        → Ensures (SameTree w) (maybe_switch_chains p g me c w new index)
    unfolding maybe_switch_chains
    maybe_switch_chains_tree w new index = Ensures-then (get_main_chain c w.chain) (λ main.
        Ensures-then (get_chain_node c w.chain.tree new) (λ top.
          Ensures-then (chain_node_max p g main top) (λ keep.
            Ensures-if (keep && not (same_ref (main_ref w.chain) new))
              (λ stays. Ensures-ok (SameTree w) w refl) (λ goes. switch_chains_tree w new index))))
