-- ===== src/Chain/Growth/Lookup.antt =====
-- findChainNode and retrieveBlock of RBlockSim/src/Block.c, on a tree of the shape that addBlock keeps.
use rblock_sim_reproducibili.Base.{
  ap, sym, ◌∙◌, ℕ, suc, ◌+◌, ◌-◌, ◌≤◌, ◌<◌, ◌≡◌, ◌≢◌, ◌⊎◌, refl, Bool-cases, inl, inr, some, none,
  true, false, arith, List, [], ◌∷◌, get_elem?, ltb, ◌==◌, zero,
}
use rblock_sim_reproducibili.Run.{ok, deref, ◌>>=◌, bind_returned}
use rblock_sim_reproducibili.Config.{Constants}
use rblock_sim_reproducibili.Transaction.{TransactionData}
use rblock_sim_reproducibili.Chain.{
  Block, BlockTree, ChainNode, Ref, is_orphan, dec64, get_chain_node, get_chain_level, find_miner,
  find_chain_node,
}
use rblock_sim_reproducibili.Chain.Levels.{get_chain_level_total}
use rblock_sim_reproducibili.Chain.Levels.Nodes.{get_chain_level_inside}
use rblock_sim_reproducibili.Chain.Growth.{retrieve_block, block_from_node}
use rblock_sim_reproducibili.Chain.Growth.Tree.{IsTree}

none_by-cons :
    (n : ChainNode) (ns : List ChainNode) (miner : ℕ)
    → (n.miner == miner) ≡ false
    → ((k : ℕ) (m : ChainNode) → get_elem? ns k ≡ some m → m.miner ≢ miner)
    → (k : ℕ) (m : ChainNode) → get_elem? (n ∷ ns) k ≡ some m
    → m.miner ≢ miner
none_by-cons n ns miner apart others zero m at_k same = absurd (ground (arith, apart, at_k, same))
none_by-cons n ns miner apart others (suc k) m at_k same = others k m at_k same

-- The index of a node of that miner, or no node of the level is of that miner.
find_miner_finds :
    (c : Constants) (ns : List ChainNode) (miner i : ℕ)
    → ((k : ℕ) × (n : ChainNode) × (find_miner c ns miner i ≡ some (i + k))
        × (get_elem? ns k ≡ some n)
        × (n.miner ≡ miner))
      ⊎ ((find_miner c ns miner i ≡ none)
          × ((k : ℕ) (n : ChainNode) → get_elem? ns k ≡ some n → n.miner ≢ miner))
unfolding find_miner
find_miner_finds c [] miner i = inr (refl, λ k n at_k same. absurd (ground (arith, at_k)))
find_miner_finds c (n ∷ ns) miner i = elim (Bool-cases (n.miner == miner)) [
  | inl same ↦ inl (0, n, ground (arith, same), refl, ground (arith, same))
  | inr apart ↦ elim (find_miner_finds c ns miner (suc i)) [
    | inl (k, m, found, at_k, by) ↦ inl (suc k, m, ground (arith, apart, found), at_k, by)
    | inr (missing, others) ↦
        inr (ground (arith, apart, missing), none_by-cons n ns miner apart others)
  ]
]

module _ (c : Constants) (t : BlockTree) (miner height : ℕ) where
  -- A node that stands for the block of that miner at that height.
  pub record StandsFor (r : Ref) (n : ChainNode) : Type 0 where
    pub loads : get_chain_node c t r ≡ ok n
    pub at_height : r.level ≡ height
    pub by : n.miner ≡ miner

  abbrev pub IsMissing : Type 0
  IsMissing =
      (r : Ref) (n : ChainNode) → get_chain_node c t r ≡ ok n → r.level ≡ height → n.miner ≢ miner

  pub StandsFor-inside :
      IsTree c t → (r : Ref) (n : ChainNode) → StandsFor r n → t.min_height ≤ height
  unfolding get_chain_node
  StandsFor-inside tree r n s =
      let (l, level, at) =
        bind_returned (get_chain_level c t r.level) (λ l. deref (get_elem? l.nodes r.index))
          s.loads in
      omega (arith, s.at_height, (get_chain_level_inside c t r.level l tree.window level).0)

  -- Any height that the window has, or that is too high, can be searched: the node that is found stands
  -- for the block, and none is found only when no node does.
  pub find_chain_node_finds :
      IsTree c t
      → t.min_height ≤ height
      → ((r : Ref) × (n : ChainNode) × (find_chain_node c t miner height ≡ ok (some r))
          × StandsFor r n)
        ⊎ ((find_chain_node c t miner height ≡ ok none) × IsMissing)
  unfolding find_chain_node get_chain_node
  find_chain_node_finds tree low = elim (Bool-cases (ltb t.max_height height)) [
    | inl high ↦ inr (
      ground (arith, high),
      λ r n loads level same. absurd (ground (arith, tree.below_top r n loads, high, level)),
    )
    | inr within ↦
        let (l, at_level) =
          get_chain_level_total c t height tree.window (low, ground (arith, within, tree.top)) in
        elim (find_miner_finds c l.nodes miner 0) [
          | inl (k, n, found, at_k, by) ↦ inl (
            record { level = height; index = k },
            n,
            ground (arith, within, at_level, found),
            record { loads = ground (arith, at_level, at_k); at_height = refl; by = by },
          )
          | inr (missing, others) ↦ inr (
            ground (arith, within, at_level, missing),
            λ r n loads level same. others r.index n (ground (arith, loads, level, at_level)) same,
          )
        ]
  ]

  -- The block of a node: its own data, and the miner of its parent, which an orphan knows by itself.
  pub record Retrieved (junk : ℕ) (n : ChainNode) (b : Block) : Type 0 where
    pub by : b.miner ≡ miner
    pub at_height : b.height ≡ height
    pub dated : b.timestamp ≡ n.timestamp
    pub block_data : n.transaction_data ≡ some b.transaction_data
    pub sent_by : b.sender ≡ junk
    pub honest : b.is_attack_block ≡ false
    pub waits : is_orphan n ≡ true → b.prev_block_miner ≡ n.parent
    pub follows :
        is_orphan n ≡ false
        → (above : ChainNode) × (get_chain_node c t
              (record { level = height - 1; index = n.parent })
            ≡ ok above)
          × (b.prev_block_miner ≡ above.miner)

  -- The block of a node with the data `d`, after one of the miner `prev`.
  abbrev block_of : ℕ → ChainNode → TransactionData → ℕ → Block
  block_of junk n d prev = record {
    timestamp = n.timestamp;
    size = 10;
    miner = n.miner;
    prev_block_miner = prev;
    sender = junk;
    height = n.height;
    is_attack_block = false;
    transaction_data = d;
  }

  block_from_node-Retrieved :
      (junk : ℕ) (r : Ref) (n : ChainNode) (d : TransactionData)
      → IsTree c t
      → t.min_height < height
      → StandsFor r n
      → n.transaction_data ≡ some d
      → (b : Block) × (block_from_node c t junk n ≡ ok b) × Retrieved junk n b
  unfolding block_from_node
  block_from_node-Retrieved junk r n d tree low s holds =
      let stands : n.height ≡ height = tree.stands r n s.loads ∙ s.at_height in
      elim (Bool-cases (is_orphan n)) [
        | inl lone ↦ (
          block_of junk n d n.parent,
          ground (arith, holds, lone),
          record {
            by = s.by;
            at_height = stands;
            dated = refl;
            block_data = holds;
            sent_by = refl;
            honest = refl;
            waits = λ e. refl;
            follows = λ e. absurd (ground (arith, e, lone));
          },
        )
        | inr steady ↦
            let h = tree.parents r n s.loads steady (omega (arith, s.at_height)) in
            let parent : get_chain_node c t (record { level = dec64 n.height; index = n.parent })
                ≡ ok h.above =
              ap (λ k. get_chain_node c t (record { level = k; index = n.parent }))
                (ground (arith, stands, s.at_height))
              ∙ h.loads in
            (
              block_of junk n d h.above.miner,
              ground (arith, holds, steady, parent),
              record {
                by = s.by;
                at_height = stands;
                dated = refl;
                block_data = holds;
                sent_by = refl;
                honest = refl;
                waits = λ e. absurd (ground (arith, e, steady));
                follows = λ e. (
                  h.above,
                  ap (λ k. get_chain_node c t (record { level = k - 1; index = n.parent }))
                        (sym s.at_height)
                      ∙ h.loads,
                  refl,
                );
              },
            )
      ]

  -- `retrieveBlock` gives the block of a node that stands for it, or none when no node does.
  pub retrieve_block_finds :
      (junk : ℕ)
      → IsTree c t
      → t.min_height < height
      → ((r : Ref) (n : ChainNode)
          → StandsFor r n
          → (d : TransactionData) × (n.transaction_data ≡ some d))
      → ((r : Ref) × (n : ChainNode) × (b : Block) × (retrieve_block c t junk miner height
            ≡ ok (some b))
          × StandsFor r n
          × Retrieved junk n b)
        ⊎ ((retrieve_block c t junk miner height ≡ ok none) × IsMissing)
  unfolding retrieve_block
  retrieve_block_finds junk tree low filled = elim (find_chain_node_finds tree (omega arith)) [
    | inl (r, n, found, s) ↦
        let (d, holds) = filled r n s in
        let (b, made, retrieved) = block_from_node-Retrieved junk r n d tree low s holds in
        inl (r, n, b, rw (found, ◌>>=◌) (rw (s.loads, ◌>>=◌) (rw (made, ◌>>=◌) refl)), s, retrieved)
    | inr (found, missing) ↦ inr (rw (found, ◌>>=◌) refl, missing)
  ]
