-- ===== src/Chain/Growth/First.antt =====
-- initBlockchain of RBlockSim/src/Block.c: the tree that a node starts with.
use rblock_sim_reproducibili.Base.{
  ℕ, zero, suc, ◌-◌, ◌<◌, ◌≡◌, refl, ap, sym, subst, ◌∙◌, Bool-cases, inl, inr, some, arith, [],
  length, replicate, length-replicate, get_elem?,
}
use rblock_sim_reproducibili.Run.{ok, deref, bind_returned, Ensures, Ensures-ok, Ensures-bind}
use rblock_sim_reproducibili.Platform.{Platform}
use rblock_sim_reproducibili.Config.{Constants}
use rblock_sim_reproducibili.Chain.{
  BlockTree, Blockchain, ChainLevel, ChainNode, Ref, same_ref, is_orphan, genesis_block,
  empty_level, generate_chain_levels, get_chain_node, get_chain_level, init_blockchain, main_ref,
  genesis_ref,
}
use rblock_sim_reproducibili.Chain.Levels.{IsWindow}
use rblock_sim_reproducibili.Chain.Levels.Nodes.{PutNode, append_level-PutNode, same_ref→eq}
use rblock_sim_reproducibili.Chain.Growth.Grown.{Steady, Descends}
use rblock_sim_reproducibili.Chain.Growth.Sound.{IsSound}
use rblock_sim_reproducibili.Chain.Growth.Rooted.{IsRooted}
use rblock_sim_reproducibili.Chain.Switch.Paths.{here}

get_elem?-replicate :
    (n i : ℕ) (l : ChainLevel) → get_elem? (replicate n empty_level) i ≡ some l → l ≡ empty_level
get_elem?-replicate zero i l h = absurd (ground (arith, h))
get_elem?-replicate (suc n) zero l h = ground (arith, h)
get_elem?-replicate (suc n) (suc i) l h = get_elem?-replicate n i l h

module _ (c : Constants) (p : Platform) where
  abbrev bare_tree : BlockTree
  bare_tree = record {
    current_levels = generate_chain_levels c;
    old_levels = generate_chain_levels c;
    max_height = 0;
    min_height = 0;
  }

  bare_level : (h : ℕ) (l : ChainLevel) → get_chain_level c bare_tree h ≡ ok l → l ≡ empty_level
  unfolding get_chain_level generate_chain_levels
  bare_level h l loads = ground (
    arith,
    loads,
    get_elem?-replicate c.depth_to_keep h l,
    get_elem?-replicate c.depth_to_keep (h - c.depth_to_keep) l,
  )

  bare_node : (goal : Type 0) (r : Ref) (n : ChainNode) → get_chain_node c bare_tree r ≡ ok n → goal
  unfolding get_chain_node
  bare_node goal r n loads =
      let (l, level, found) =
        bind_returned (get_chain_level c bare_tree r.level) (λ l. deref (get_elem? l.nodes r.index))
          loads in
      absurd (ground (arith, found, bare_level r.level l level))

  -- The genesis block alone.
  genesis_only :
      (t : BlockTree) (r : Ref) (n : ChainNode)
      → PutNode c bare_tree genesis_ref (genesis_block p) t
      → get_chain_node c t r ≡ ok n
      → (genesis_block p ≡ n) × (r ≡ genesis_ref)
  genesis_only t r n put loads = elim (Bool-cases (same_ref genesis_ref r)) [
    | inl same ↦ (ground (arith, put.reads r, same, loads), sym (same_ref→eq genesis_ref r same))
    | inr apart ↦
        bare_node ((genesis_block p ≡ n) × (r ≡ genesis_ref)) r n
          (ground (arith, put.reads r, apart, loads))
  ]

  -- It is the root of a tree with nothing else.
  genesis-IsRooted :
      (t : BlockTree)
      → PutNode c bare_tree genesis_ref (genesis_block p) t
      → IsRooted c t genesis_ref
  unfolding genesis_block is_orphan
  genesis-IsRooted t put =
      let bottom : Steady c t genesis_ref = record {
        node = genesis_block p;
        loads = ground (arith, put.reads genesis_ref);
        steady = refl;
      } in
      record {
        bottom = bottom;
        inside = omega (arith, put.min_height);
        all = λ q s higher.
            subst (λ r. Descends c t r genesis_ref) (sym (genesis_only t q s.node put s.loads).1)
              (record { top = bottom; blocks = []; path = here });
      }

  -- With the genesis block alone the tree is sound.
  genesis-IsSound :
      (t : BlockTree)
      → 0 < c.depth_to_keep
      → PutNode c bare_tree genesis_ref (genesis_block p) t
      → IsSound c t
  unfolding genesis_block
  genesis-IsSound t positive put =
      let level = λ (r : Ref) (n : ChainNode) (loads : get_chain_node c t r ≡ ok n).
        ap (λ (x : Ref). x.level) (genesis_only t r n put loads).1 in
      record {
        tree = record {
          window = put.window;
          top = omega (arith, put.min_height, put.max_height);
          stands = λ r n loads. ground (arith, (genesis_only t r n put loads).0, level r n loads);
          below_top = λ r n loads. omega (arith, level r n loads, put.max_height);
          parents = λ r n loads steady low. absurd (omega (arith, level r n loads, low));
        };
        complete = record {
          serves = λ q s first above r n at_q loads next same.
              absurd (omega (arith, level r n loads, next));
        };
      }

  -- `initBlockchain` leaves a sound tree, in which all blocks descend from the genesis block, which is
  -- the main chain.
  pub init_blockchain-IsSound :
      0 < c.depth_to_keep
      → Ensures
          (λ (b : Blockchain).
            IsSound c b.tree × IsRooted c b.tree genesis_ref × (main_ref b ≡ genesis_ref))
          (init_blockchain c p)
  unfolding init_blockchain generate_chain_levels
  init_blockchain-IsSound positive =
      let sized : length (generate_chain_levels c) ≡ c.depth_to_keep =
        length-replicate c.depth_to_keep empty_level in
      let w : IsWindow c bare_tree = record { old = sized; current = sized } in
      Ensures-bind (get_chain_level c bare_tree 0) (record { holds = λ l e. e })
        (λ l level.
          let put =
            append_level-PutNode c bare_tree 0 empty_level 1 (genesis_block p) w
              (level ∙ ap ok (bare_level 0 l level)) in
          Ensures-ok
            (λ (b : Blockchain).
              IsSound c b.tree × IsRooted c b.tree genesis_ref × (main_ref b ≡ genesis_ref))
            _ (genesis-IsSound _ positive put, genesis-IsRooted _ put, refl))
