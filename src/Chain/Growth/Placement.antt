-- ===== src/Chain/Growth/Placement.antt =====
-- The new node of addBlock (RBlockSim/src/Block.c): its place at the end of a level, and the search
-- for its parent.
use rblock_sim_reproducibili.Base.{
  ℕ, zero, suc, ◌-◌, ◌≤◌, ◌<◌, ◌≡◌, refl, ap, ◌∙◌, Bool-cases, inl, inr, some, none, true, false,
  arith, ◌==◌, List, [], ◌∷◌, length, get_elem?, get_elem?_outside,
}
use rblock_sim_reproducibili.Run.{ok, fault}
use rblock_sim_reproducibili.Config.{Constants}
use rblock_sim_reproducibili.Chain.{
  BlockTree, ChainLevel, ChainNode, Ref, is_orphan, get_chain_node, get_chain_level,
  put_chain_level, put_chain_node,
}
use rblock_sim_reproducibili.Chain.Levels.{IsWindow, InWindow}
use rblock_sim_reproducibili.Chain.Levels.Nodes.{
  PutNode, append_level-PutNode, put_chain_node-PutNode,
}
use rblock_sim_reproducibili.Chain.Growth.{append_node, find_parent}
use rblock_sim_reproducibili.Chain.Growth.Orphans.{with_node, append_node-ok}

module _ (c : Constants) where
  -- Two writes at one place.
  PutNode-twice :
      (t u v : BlockTree) (r : Ref) (n m : ChainNode)
      → PutNode c t r n u
      → PutNode c u r m v
      → PutNode c t r m v
  PutNode-twice t u v r n m a b = record {
    window = b.window;
    min_height = b.min_height ∙ a.min_height;
    max_height = b.max_height ∙ a.max_height;
    inside = a.inside;
    reads = λ q. ground (arith, a.reads q, b.reads q);
  }

  -- No node stands at the place behind the last one.
  pub end_free :
      (t : BlockTree) (h : ℕ) (l : ChainLevel)
      → get_chain_level c t h ≡ ok l
      → get_chain_node c t (record { level = h; index = length l.nodes }) ≡ fault
  unfolding get_chain_node
  end_free t h l level =
      ground (arith, level, get_elem?_outside l.nodes (length l.nodes) (omega arith))

  -- What `addBlock` has written once the node is appended and then replaced by `m`.
  pub append_node-PutNode :
      (t : BlockTree) (h : ℕ) (l : ChainLevel) (n m : ChainNode)
      → IsWindow c t
      → InWindow c t h
      → get_chain_level c t h ≡ ok l
      → let r : Ref = record { level = h; index = length l.nodes } in
        let u = put_chain_level c t h (with_node l n) in
        (append_node c t h n ≡ ok (u, r))
        × (v : BlockTree) × (put_chain_node c u r m ≡ ok v)
        × PutNode c t r m v
  append_node-PutNode t h l n m w inside level =
      let r : Ref = record { level = h; index = length l.nodes } in
      let u = put_chain_level c t h (with_node l n) in
      let first = append_level-PutNode c t h l (with_node l n).capacity n w level in
      let found : get_chain_node c u r ≡ ok n = ground (arith, first.reads r) in
      let (v, done, second, sizes) = put_chain_node-PutNode c u r n m first.window found in
      (append_node-ok c t h l n level, v, done, PutNode-twice t u v r n m first second)

-- The node that the search for the parent returns, counting from `i`.
pub record FoundParent (ns : List ChainNode) (miner i : ℕ) (j : ℕ) (x : ChainNode) : Type 0 where
  pub from : i ≤ j
  pub held : get_elem? ns (j - i) ≡ some x
  pub steady : is_orphan x ≡ false

pub find_parent-FoundParent :
    (ns : List ChainNode) (miner i j : ℕ) (x : ChainNode)
    → find_parent ns miner i ≡ some (j, x)
    → FoundParent ns miner i j x
unfolding find_parent
find_parent-FoundParent [] miner i j x h = absurd (ground (arith, h))
find_parent-FoundParent (n ∷ ns) miner i j x h = elim (Bool-cases (n.miner == miner)) [
  | inl this ↦ record {
    from = ground (arith, this, h);
    held = ground (arith, this, h);
    steady = ground (arith, this, h);
  }
  | inr other ↦
      let rest = find_parent-FoundParent ns miner (suc i) j x (ground (arith, other, h)) in
      let e : j - i ≡ suc (j - suc i) = omega (arith, rest.from) in
      record {
        from = omega (arith, rest.from);
        held = ap (get_elem? (n ∷ ns)) e ∙ rest.held;
        steady = rest.steady;
      }
]

-- When the search fails, the first node of that miner is an orphan.
pub find_parent-none :
    (ns : List ChainNode) (miner i k : ℕ) (x : ChainNode)
    → find_parent ns miner i ≡ none
    → get_elem? ns k ≡ some x
    → x.miner ≡ miner
    → ((j : ℕ) (m : ChainNode) → j < k → get_elem? ns j ≡ some m → (m.miner == miner) ≡ false)
    → is_orphan x ≡ true
unfolding find_parent
find_parent-none [] miner i k x h held same first = absurd (ground (arith, held))
find_parent-none (n ∷ ns) miner i zero x h held same first = elim (Bool-cases (is_orphan n)) [
  | inl waits ↦ ground (arith, held, waits)
  | inr steady ↦ absurd (ground (arith, held, same, steady, h))
]
find_parent-none (n ∷ ns) miner i (suc k) x h held same first =
    let other = first 0 n (omega arith) refl in
    find_parent-none ns miner (suc i) k x (ground (arith, other, h)) held same
      (λ j m short at. first (suc j) m (omega arith) at)

-- When the search fails in the level of `q`, the first node of the miner there is an orphan.
pub find_parent-IsFirst :
    (c : Constants) (t : BlockTree) (q : Ref) (x : ChainNode) (l : ChainLevel) (miner : ℕ)
    → get_chain_level c t q.level ≡ ok l
    → find_parent l.nodes miner 0 ≡ none
    → get_chain_node c t q ≡ ok x
    → x.miner ≡ miner
    → ((j : ℕ) (m : ChainNode)
        → j < q.index
        → get_chain_node c t (record { level = q.level; index = j }) ≡ ok m
        → (m.miner == x.miner) ≡ false)
    → is_orphan x ≡ true
unfolding get_chain_node
find_parent-IsFirst c t q x l miner level missing loads same first =
    find_parent-none l.nodes miner 0 q.index x missing (ground (arith, level, loads)) same
      (λ j m short at. ground (arith, same, first j m short (ground (arith, level, at))))
