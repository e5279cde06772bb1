-- ===== src/Network/Gossip.antt =====
-- gossipBlock of RBlockSim/src/Network.c: which peers receive a block.
use rblock_sim_reproducibili.Base.{
  subst, sym, get_elem?_inside, ℕ, zero, suc, ◌+◌, ◌-◌, ◌≤◌, ◌<◌, ◌≡◌, refl, ◌∙◌, Bool, Bool-cases,
  inl, inr, false, ◌||◌, List, [], ◌∷◌, length, leb, arith, map, ◌==◌, if◌then◌else◌, some,
  get_elem?,
}
use rblock_sim_reproducibili.Run.{Run, ok, ◌>>=◌}
use rblock_sim_reproducibili.Platform.{Double, Rng, Bytes, Platform, BitmapLaws, capacity}
use rblock_sim_reproducibili.Config.{Constants}
use rblock_sim_reproducibili.Chain.{Block}
use rblock_sim_reproducibili.Attacks.Sampling.{contains}
use rblock_sim_reproducibili.Network.Draws.{
  left_out, nth_draw, Reached, at_first, after_draw, after_delay, IsFair,
}
use rblock_sim_reproducibili.Network.{
  Topology, Event, receive_block_message, send_single_block, gossip_all, draw_peer, gossip_some,
  gossip_block, latency,
}

-- The picks are distinct, and none is among the earlier ones.
abbrev pub Fresh : List ℕ → List ℕ → Type 0
Fresh earlier [] = Unit {0}
Fresh earlier (i ∷ picks) = (contains earlier i ≡ false) × Fresh (i ∷ earlier) picks

-- One event for each pick, which brings the block to that peer.
abbrev pub Delivers : Block → List ℕ → List ℕ → List Event → Type 0
Delivers b peers [] [] = Unit {0}
Delivers b peers [] (e ∷ es) = ⊥
Delivers b peers (i ∷ picks) [] = ⊥
Delivers b peers (i ∷ picks) (e ∷ es) =
    (get_elem? peers i ≡ some e.receiver)
    × (e.message ≡ receive_block_message b)
    × Delivers b peers picks es

module _ (p : Platform) (laws : BitmapLaws p) (c : Constants) (top : Topology)
    (regions : List ℕ) where
  -- The sender and its peers have regions, and the table has an entry for them.
  abbrev pub Connected : ℕ → List ℕ → Type 0
  Connected sender peers =
      (i peer : ℕ)
      → get_elem? peers i ≡ some peer
      → (l : Double) × (latency p c top regions sender peer ≡ ok l)

  send-total :
      (sender peer : ℕ) (time l : Double) (b : Block) (rng : Rng)
      → latency p c top regions sender peer ≡ ok l
      → (e : Event) × (next : Rng) × (send_single_block p c top regions sender peer time b rng
          ≡ ok (e, next))
        × (e.receiver ≡ peer)
        × (e.message ≡ receive_block_message b)
        × (next ≡ (p.expent rng l).1)
  unfolding send_single_block
  send-total sender peer time l b rng h = (
    record {
      receiver = peer;
      time = p.add time (p.expent rng l).0;
      message = receive_block_message b;
    },
    (p.expent rng l).1,
    ground (arith, h),
    refl,
    refl,
    refl,
  )

  draw_peer-total :
      (f k n : ℕ) (selected : Bytes) (first rng : Rng)
      → k < f
      → ((r : Rng) → Reached p n first r → (p.random_range r 0 (n - 1)).0 < n)
      → Reached p n first rng
      → p.bitmap_check selected (nth_draw p n k rng) ≡ false
      → (i : ℕ) × (next : Rng) × (draw_peer p c top regions f n selected rng ≡ ok (i, next))
        × (i < n)
        × (p.bitmap_check selected i ≡ false)
        × Reached p n first next
  unfolding draw_peer
  draw_peer-total zero k n selected first rng h range from free = absurd (omega arith)
  draw_peer-total (suc f) zero n selected first rng h range from free = (
    (p.random_range rng 0 (n - 1)).0,
    (p.random_range rng 0 (n - 1)).1,
    rw (free, draw_peer),
    range rng from,
    free,
    after_draw rng from,
  )
  draw_peer-total (suc f) (suc k) n selected first rng h range from free =
      let draw = p.random_range rng 0 (n - 1) in
      elim (Bool-cases (p.bitmap_check selected draw.0)) [
        | inl taken ↦
            rw (taken, draw_peer)
              (draw_peer-total f k n selected first draw.1 (omega arith) range (after_draw rng from)
                free)
        | inr open' ↦
            (draw.0, draw.1, rw (open', draw_peer), range rng from, open', after_draw rng from)
      ]

  pub record Gossiped (b : Block) (peers earlier : List ℕ) (rounds : ℕ) (r : Run (List Event × Rng))
      : Type 0 where
    pub picks : List ℕ
    pub events : List Event
    pub last : Rng
    pub returns : r ≡ ok (events, last)
    pub counted : length picks ≡ rounds
    pub distinct : Fresh earlier picks
    pub delivered : Delivers b peers picks events

  gossip_some-Gossiped :
      (f sender : ℕ) (time : Double) (b : Block) (peers : List ℕ) (rounds : ℕ) (selected : Bytes)
      (first rng : Rng) (earlier : List ℕ)
      → IsFair p (length peers) first f
      → Reached p (length peers) first rng
      → Connected sender peers
      → length earlier + rounds ≤ length peers
      → length peers ≤ capacity selected
      → ((k : ℕ) → k < length peers → p.bitmap_check selected k ≡ contains earlier k)
      → Gossiped b peers earlier rounds
          (gossip_some p c top regions f sender time b peers rounds selected rng)
  unfolding gossip_some
  gossip_some-Gossiped f sender time b peers zero selected first rng earlier fair from conn enough
        room marks =
      record {
        picks = [];
        events = [];
        last = rng;
        returns = refl;
        counted = refl;
        distinct = tt;
        delivered = tt;
      }
  gossip_some-Gossiped f sender time b peers (suc rounds) selected first rng earlier fair from conn
        enough room marks =
      let n = length peers in
      let (j, below, out) = left_out n earlier (omega arith) in
      let (k, soon, turns) = fair.covers rng j from below in
      let free : p.bitmap_check selected (nth_draw p n k rng) ≡ false =
        rw turns (marks j below ∙ out) in
      let (i, next, drawn, inside, unseen, drew) =
        draw_peer-total f k n selected first rng soon (λ r w. fair.in_range r w (omega arith)) from
          free in
      let (peer, found) = get_elem?_inside peers i inside in
      let (l, lat) = conn i peer found in
      let (e, after, sent, to, carries, delayed) = send-total sender peer time l b next lat in
      let rest =
        gossip_some-Gossiped f sender time b peers rounds (p.bitmap_set selected i) first after
          (i ∷ earlier) fair (subst (Reached p n first) (sym delayed) (after_delay next l drew))
          conn (omega arith) (omega (arith, laws.length-set selected i))
          (λ m h. ground (arith, laws.check-set selected i m, marks m h)) in
      record {
        picks = i ∷ rest.picks;
        events = e ∷ rest.events;
        last = rest.last;
        returns =
            rw (drawn, ◌>>=◌)
              (rw (found, ◌>>=◌) (rw (sent, ◌>>=◌) (rw (rest.returns, ◌>>=◌) refl)));
        counted = omega (arith, rest.counted);
        distinct = (ground (arith, marks i inside), rest.distinct);
        delivered = (rw to found, carries, rest.delivered);
      }

  pub record ReachesAll (b : Block) (peers : List ℕ) (r : Run (List Event × Rng)) : Type 0 where
    pub events : List Event
    pub last : Rng
    pub returns : r ≡ ok (events, last)
    pub receivers : map (λ (e : Event). e.receiver) events ≡ peers
    pub carries : map (λ (e : Event). e.message) events ≡ map (λ i. receive_block_message b) peers

  gossip_all-ReachesAll :
      (sender : ℕ) (time : Double) (b : Block) (peers : List ℕ) (rng : Rng)
      → Connected sender peers
      → ReachesAll b peers (gossip_all p c top regions sender time b peers rng)
  unfolding gossip_all
  gossip_all-ReachesAll sender time b [] rng conn = record {
    events = [];
    last = rng;
    returns = refl;
    receivers = refl;
    carries = refl;
  }
  gossip_all-ReachesAll sender time b (peer ∷ peers) rng conn =
      let (l, lat) = conn 0 peer refl in
      let (e, next, sent, to, carries, delayed) = send-total sender peer time l b rng lat in
      let rest = gossip_all-ReachesAll sender time b peers next (λ i q h. conn (suc i) q h) in
      record {
        events = e ∷ rest.events;
        last = rest.last;
        returns = rw (sent, ◌>>=◌) (rw (rest.returns, ◌>>=◌) refl);
        receivers = cc rest.receivers;
        carries = cc rest.carries;
      }

  -- Whether a block goes to every peer.
  abbrev pub floods : Block → ℕ → List ℕ → Bool
  floods b sender peers =
      c.gossip_fanout == 0 || (leb (length peers) c.gossip_fanout || b.miner == sender)

  abbrev pub Propagated : Block → ℕ → List ℕ → Run (List Event × Rng) → Type 0
  Propagated b sender peers r =
      if floods b sender peers then ReachesAll b peers r else Gossiped b peers [] c.gossip_fanout r

  -- Between connected nodes gossiping always completes. The block goes to all peers, in order, when
  -- the fan-out is 0 or no smaller than their number or the sender mined it, and otherwise to exactly
  -- as many distinct peers as the fan-out says. Assumes that, from the state of the generator at the
  -- start, draws stay in their range and every peer turns up within `f` draws.
  pub gossip_block_propagates :
      (f sender : ℕ) (time : Double) (b : Block) (rng : Rng) (peers : List ℕ)
      → IsFair p (length peers) rng f
      → Connected sender peers
      → Propagated b sender peers (gossip_block p c top regions f sender time b rng peers)
  unfolding gossip_block
  gossip_block_propagates f sender time b rng peers fair conn =
      elim (Bool-cases (floods b sender peers)) [
        | inl all ↦ rw all (gossip_all-ReachesAll sender time b peers rng conn)
        | inr some_of ↦ rw some_of (
            gossip_some-Gossiped f sender time b peers c.gossip_fanout
              (p.bitmap_initialize (length peers)) rng rng [] fair at_first conn (ground arith)
              (laws.capacity-initialize (length peers))
              (λ k h. laws.check-initialize (length peers) k h))
      ]
