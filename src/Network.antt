-- ===== src/Network.antt =====
-- RBlockSim/src/Network.c: the regions of the network, the delays between them, and the propagation
-- of blocks. The events that a call schedules are returned, in order.
pub mod Regions
pub mod Draws
pub mod Gossip
use rblock_sim_reproducibili.Base.{
  ℕ, zero, suc, ◌+◌, ◌-◌, ◌*◌, ◌^◌, Bool, true, false, ◌||◌, Option, none, some, List, [], ◌∷◌,
  ◌++◌, length, get_elem?, ltb, leb, ◌==◌, if◌then◌else◌,
}
use rblock_sim_reproducibili.Run.{Run, ok, abort, out_of_fuel, ◌>>=◌, deref}
use rblock_sim_reproducibili.Platform.{Double, Bytes, Rng, Platform}
use rblock_sim_reproducibili.Config.{Constants, u64}
use rblock_sim_reproducibili.Transaction.{Transaction}
use rblock_sim_reproducibili.Chain.{Block}

-- What an event carries: `struct request_block_evt`, or a block.
pub data Message : Type 0 where
  init_message : Message
  generate_block_message : Message
  receive_block_message : Block → Message
  request_block_message : ℕ → ℕ → ℕ → Message

-- A call of `ScheduleNewEvent`.
pub record Event : Type 0 where
  pub receiver : ℕ
  pub time : Double
  pub message : Message

-- `REGIONS_DISTRIBUTION` and `LATENCIES` of Config.c, `peer_lists` of Topology.c with the first
-- `peer_list_sizes[i]` entries of each list.
pub record Topology : Type 0 where
  pub regions_distribution : List Double
  pub latencies : List (List Double)
  pub peer_lists : List (List ℕ)

module _ (p : Platform) where
  -- `initNetwork` on `n` nodes, of which `tot` have a region: the last region takes the rest.
  unfoldable pub init_regions : ℕ → ℕ → List Double → List ℕ
  init_regions n tot [] = []
  init_regions n tot (d ∷ []) = u64 (n + (2 ^ 64 - tot)) ∷ []
  init_regions n tot (d ∷ e ∷ ds) =
      let k = p.truncate (p.mul (p.of_ℕ n) d) in k ∷ init_regions n (tot + k) (e ∷ ds)

  unfoldable pub init_network : Constants → Topology → List ℕ
  unfolding init_regions
  init_network c top = init_regions c.n_nodes 0 top.regions_distribution

-- `getRegion`, counting regions from `i`.
unfoldable pub get_region : List ℕ → ℕ → ℕ → Run ℕ
get_region [] node i = abort
get_region (k ∷ ks) node i = if ltb node k then ok i else get_region ks (node - k) (i + 1)

module _ (p : Platform) (c : Constants) (top : Topology) (nodes_in_region : List ℕ) where
  -- The entry of `LATENCIES`.
  unfoldable pub latency : ℕ → ℕ → Run Double
  unfolding get_region
  latency src dst = do
    i ← get_region nodes_in_region src 0
    row ← deref (get_elem? top.latencies i)
    j ← get_region nodes_in_region dst 0
    deref (get_elem? row j)

  -- `getTransmissionDelay` without a random number generator, and with one.
  unfoldable pub get_transmission_delay : ℕ → ℕ → Rng → Run (Double × Rng)
  unfolding latency
  get_transmission_delay src dst rng = do l ← latency src dst; ok (p.expent rng l)

  -- One delivery: the delay is drawn, and the event scheduled.
  unfoldable pub send_message : ℕ → ℕ → Double → Message → Rng → Run (Event × Rng)
  unfolding get_transmission_delay
  send_message sender receiver send_time m rng = do
    (delay, next) ← get_transmission_delay sender receiver rng
    ok (record { receiver = receiver; time = p.add send_time delay; message = m }, next)

  unfoldable pub send_single_block : ℕ → ℕ → Double → Block → Rng → Run (Event × Rng)
  unfolding send_message
  send_single_block sender receiver send_time b rng =
      send_message sender receiver send_time (receive_block_message b) rng

  -- The loop of `gossipBlock` over all peers.
  unfoldable pub gossip_all : ℕ → Double → Block → List ℕ → Rng → Run (List Event × Rng)
  unfolding send_single_block
  gossip_all sender send_time b [] rng = ok ([], rng)
  gossip_all sender send_time b (peer ∷ peers) rng =
      send_single_block sender peer send_time b rng >>= λ (e, next).
      gossip_all sender send_time b peers next >>= λ (es, last). ok (e ∷ es, last)

  -- The loop of `send_to_everyone`, from node `d` on; nothing calls it.
  unfoldable pub send_to_everyone : ℕ → ℕ → Double → Block → ℕ → Rng → Run (List Event × Rng)
  unfolding send_single_block
  send_to_everyone sender d send_time b zero rng = ok ([], rng)
  send_to_everyone sender d send_time b (suc rounds) rng = elim (d == sender) [
    | true ↦ send_to_everyone sender (d + 1) send_time b rounds rng
    | false ↦ send_single_block sender d send_time b rng >>= λ (e, next).
        send_to_everyone sender (d + 1) send_time b rounds next >>= λ (es, last). ok (e ∷ es, last)
  ]

  -- The draws of a peer, repeated while the peer is selected already.
  unfoldable pub draw_peer : ℕ → ℕ → Bytes → Rng → Run (ℕ × Rng)
  draw_peer zero n_peers selected rng = out_of_fuel
  draw_peer (suc f) n_peers selected rng =
      let draw = p.random_range rng 0 (n_peers - 1) in
      elim (p.bitmap_check selected draw.0) [
        | true ↦ draw_peer f n_peers selected draw.1
        | false ↦ ok draw
      ]

  -- The loop of `gossipBlock` over a random subset; `f` bounds the draws for each peer.
  unfoldable pub gossip_some :
      ℕ → ℕ → Double → Block → List ℕ → ℕ → Bytes → Rng → Run (List Event × Rng)
  unfolding draw_peer send_single_block
  gossip_some f sender send_time b peers zero selected rng = ok ([], rng)
  gossip_some f sender send_time b peers (suc rounds) selected rng =
      draw_peer f (length peers) selected rng >>= λ (i, next). deref (get_elem? peers i) >>= λ peer.
      send_single_block sender peer send_time b next >>= λ (e, after).
      gossip_some f sender send_time b peers rounds (p.bitmap_set selected i) after
      >>= λ (es, last). ok (e ∷ es, last)

  unfoldable pub gossip_block : ℕ → ℕ → Double → Block → Rng → List ℕ → Run (List Event × Rng)
  unfolding gossip_all gossip_some
  gossip_block f sender send_time b rng peers =
      if c.gossip_fanout == 0 || (leb (length peers) c.gossip_fanout || b.miner == sender)
      then gossip_all sender send_time b peers rng
      else gossip_some f sender send_time b peers c.gossip_fanout
          (p.bitmap_initialize (length peers)) rng

  unfoldable pub propagate_block : ℕ → ℕ → Double → Block → Rng → Run (List Event × Rng)
  unfolding gossip_block
  propagate_block f sender send_time b rng = do
    peers ← deref (get_elem? top.peer_lists sender)
    gossip_block f sender send_time b rng peers

  -- `getTransactionDeliveryTime` of Transaction.c.
  unfoldable pub get_transaction_delivery_time : (ℕ → Transaction) → ℕ → ℕ → Run Double
  unfolding latency
  get_transaction_delivery_time txns id receiver = do
    l ← latency (txns id).sender receiver
    ok (p.add (txns id).timestamp l)

  -- The same as a plain number, for senders and receivers that have a region; no other ones exist.
  unfoldable pub delivery_time : (ℕ → Transaction) → ℕ → ℕ → Double
  unfolding get_transaction_delivery_time
  delivery_time txns id receiver = elim (get_transaction_delivery_time txns id receiver) [
    | ok time ↦ time
    | _ ↦ 0
  ]
