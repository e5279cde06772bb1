-- ===== src/Network/Regions.antt =====
-- initNetwork and getRegion of RBlockSim/src/Network.c: the region of a node.
use rblock_sim_reproducibili.Base.{
  if◌then◌else◌, ℕ, zero, suc, ◌+◌, ◌-◌, ◌^◌, ◌≤◌, ◌<◌, ◌≡◌, ◌≢◌, refl, Bool-cases, inl, inr, List,
  [], ◌∷◌, length, ltb, arith,
}
use rblock_sim_reproducibili.Run.{Run, ok, abort}
use rblock_sim_reproducibili.Platform.{Double, Platform}
use rblock_sim_reproducibili.Config.{Constants}
use rblock_sim_reproducibili.Network.{Topology, init_regions, init_network, get_region}

-- The nodes of the first `r` regions.
abbrev pub nodes_before : ℕ → List ℕ → ℕ
nodes_before zero ks = 0
nodes_before (suc r) [] = 0
nodes_before (suc r) (k ∷ ks) = k + nodes_before r ks

abbrev pub total : List ℕ → ℕ
total [] = 0
total (k ∷ ks) = k + total ks

-- Where a node is found.
pub record Placed (ks : List ℕ) (node i : ℕ) (r : Run ℕ) : Type 0 where
  pub region : ℕ
  pub returns : r ≡ ok (i + region)
  pub inside : region < length ks
  pub from : nodes_before region ks ≤ node
  pub to : node < nodes_before (suc region) ks

-- A node below the total lies in the region whose share of the ids holds it.
pub get_region-Placed :
    (ks : List ℕ) (node i : ℕ) → node < total ks → Placed ks node i (get_region ks node i)
unfolding get_region
get_region-Placed [] node i h = absurd (omega arith)
get_region-Placed (k ∷ ks) node i h = elim (Bool-cases (ltb node k)) [
  | inl hit ↦ record {
    region = 0;
    returns = ground arith;
    inside = omega arith;
    from = omega arith;
    to = ground arith;
  }
  | inr miss ↦
      let r = get_region-Placed ks (node - k) (i + 1) (ground arith) in
      record {
        region = suc r.region;
        returns = ground (arith, r.returns);
        inside = omega (arith, r.inside);
        from = ground (arith, r.from);
        to = ground (arith, r.to);
      }
]

pub get_region_beyond : (ks : List ℕ) (node i : ℕ) → total ks ≤ node → get_region ks node i ≡ abort
unfolding get_region
get_region_beyond [] node i h = refl
get_region_beyond (k ∷ ks) node i h = ground (arith, get_region_beyond ks (node - k) (i + 1))

module _ (p : Platform) where
  -- The nodes that the shares of all regions but the last one give out.
  abbrev pub given_out : ℕ → List Double → ℕ
  given_out n [] = 0
  given_out n (d ∷ []) = 0
  given_out n (d ∷ e ∷ ds) = p.truncate (p.mul (p.of_ℕ n) d) + given_out n (e ∷ ds)

  total-init_regions :
      (n tot : ℕ) (ds : List Double)
      → ds ≢ []
      → tot + given_out n ds ≤ n
      → n < 2 ^ 64
      → tot + total (init_regions p n tot ds) ≡ n
  unfolding init_regions
  total-init_regions n tot [] some_region fits small = absurd (some_region refl)
  total-init_regions n tot (d ∷ []) some_region fits small = omega arith
  total-init_regions n tot (d ∷ e ∷ ds) some_region fits small =
      let k = p.truncate (p.mul (p.of_ℕ n) d) in
      omega (arith, total-init_regions n (tot + k) (e ∷ ds) (λ h. cc) (omega arith) small)

  -- The regions share out all the nodes, when the shares of all regions but the last do not exceed
  -- them: each node of the network lies in exactly the region that `getRegion` returns, and `getRegion`
  -- ends the program on any other id.
  pub init_network_places :
      (c : Constants) (top : Topology) (node : ℕ)
      → top.regions_distribution ≢ []
      → given_out c.n_nodes top.regions_distribution ≤ c.n_nodes
      → c.n_nodes < 2 ^ 64
      → let ks = init_network p c top in
        (total ks ≡ c.n_nodes)
        × (if ltb node c.n_nodes
            then Placed ks node 0 (get_region ks node 0)
            else get_region ks node 0 ≡ abort)
  unfolding init_network
  init_network_places c top node some_region fits small =
      let ks = init_network p c top in
      let all : total ks ≡ c.n_nodes = omega (
        arith,
        total-init_regions c.n_nodes 0 top.regions_distribution some_region (omega arith) small,
      ) in
      (
        all,
        elim (Bool-cases (ltb node c.n_nodes)) [
          | inl inside ↦ rw inside (get_region-Placed ks node 0 (ground arith))
          | inr beyond ↦ rw beyond (get_region_beyond ks node 0 (ground arith))
        ],
      )
