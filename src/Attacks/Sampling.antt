-- ===== src/Attacks/Sampling.antt =====
-- What the choice of attackers of RBlockSim/src/Attacks.c guarantees, whatever the random numbers.
use native.Mathlib.Nat.{mod-lt}
use rblock_sim_reproducibili.Base.{
  ℕ, zero, suc, ◌+◌, ◌-◌, ◌%◌, ◌≤◌, ◌<◌, ◌^◌, ◌≡◌, ◌≢◌, ◌⊎◌, refl, sym, subst, ◌∙◌, Bool,
  Bool-cases, inl, inr, true, false, ◌||◌, none, some, List, [], ◌∷◌, ◌++◌, length, ltb, arith,
  ◌==◌,
}
use rblock_sim_reproducibili.Run.{ok, abort}
use rblock_sim_reproducibili.Platform.{Bytes, Rng, Platform, BitmapLaws, capacity}
use rblock_sim_reproducibili.Config.{AttackConfig}
use rblock_sim_reproducibili.Attacks.{Attackers, generate_attackers, init_attackers, is_single}
use mathlib.Core.List.{append-nil, append_assoc}

abbrev pub contains : List ℕ → ℕ → Bool
contains [] k = false
contains (x ∷ xs) k = x == k || contains xs k

-- Strictly ascending numbers of the range from `lo` to, and without, `hi`.
abbrev pub Ascending : ℕ → ℕ → List ℕ → Type 0
Ascending lo hi [] = Unit {0}
Ascending lo hi (x ∷ xs) = (lo ≤ x) × (x < hi) × Ascending (x + 1) hi xs

Ascending-weaken : (lo hi : ℕ) (xs : List ℕ) → Ascending (lo + 1) hi xs → Ascending lo hi xs
Ascending-weaken lo hi [] h = tt
Ascending-weaken lo hi (x ∷ xs) h = (omega arith, h.1, h.2)

module _ (p : Platform) (laws : BitmapLaws p) where
  -- The sample that the loop adds to the ids and marks in the bitmap.
  pub record Sampled (lo hi missing : ℕ) (ids : List ℕ) (bitmap : Bytes) (r : List ℕ × Bytes × Rng)
      : Type 0 where
    pub picked : List ℕ
    pub returned : r.0 ≡ ids ++ picked
    pub complete : length picked ≡ missing
    pub ascending : Ascending lo hi picked
    pub sized : length r.1 ≡ length bitmap
    pub marks :
        (k : ℕ)
        → k < capacity bitmap
        → p.bitmap_check r.1 k ≡ (contains picked k || p.bitmap_check bitmap k)

  Sampled-skip :
      (idx remaining missing : ℕ) (ids : List ℕ) (bitmap : Bytes) (r : List ℕ × Bytes × Rng)
      → Sampled (idx + 1) (idx + 1 + remaining) missing ids bitmap r
      → Sampled idx (idx + suc remaining) missing ids bitmap r
  Sampled-skip idx remaining missing ids bitmap r s =
      let same : idx + 1 + remaining ≡ idx + suc remaining = omega arith in
      record {
        picked = s.picked;
        returned = s.returned;
        complete = s.complete;
        ascending =
            Ascending-weaken idx (idx + suc remaining) s.picked
              (subst (λ hi. Ascending (idx + 1) hi s.picked) same s.ascending);
        sized = s.sized;
        marks = s.marks;
      }

  Sampled-take :
      (idx remaining missing : ℕ) (ids : List ℕ) (bitmap : Bytes) (r : List ℕ × Bytes × Rng)
      → 0 < missing
      → idx < capacity bitmap
      → Sampled
          (idx + 1)
          (idx + 1 + remaining)
          (missing - 1)
          (ids ++ idx ∷ [])
          (p.bitmap_set bitmap idx)
          r
      → Sampled idx (idx + suc remaining) missing ids bitmap r
  Sampled-take idx remaining missing ids bitmap r pos room s =
      let same : idx + 1 + remaining ≡ idx + suc remaining = omega arith in
      let sized = laws.length-set bitmap idx in
      record {
        picked = idx ∷ s.picked;
        returned = s.returned ∙ append_assoc ids (idx ∷ []) s.picked;
        complete = omega (arith, s.complete);
        ascending = (
          omega arith,
          omega arith,
          subst (λ hi. Ascending (idx + 1) hi s.picked) same s.ascending,
        );
        sized = s.sized ∙ sized;
        marks = λ k h. ground (arith, s.marks k, sized, laws.check-set bitmap idx k);
      }

  -- As long as enough nodes are left and the bitmap has room for them, the loop picks exactly the
  -- missing number of distinct nodes among them, and marks these and no other, whatever numbers are
  -- drawn.
  pub generate_attackers-Sampled :
      (remaining idx missing : ℕ) (rng : Rng) (ids : List ℕ) (bitmap : Bytes)
      → missing ≤ remaining
      → idx + remaining ≤ capacity bitmap
      → Sampled idx
          (idx + remaining)
          missing
          ids
          bitmap
          (generate_attackers p remaining idx missing rng ids bitmap)
  unfolding generate_attackers
  generate_attackers-Sampled zero idx missing rng ids bitmap enough room = record {
    picked = [];
    returned = sym (append-nil ids);
    complete = omega arith;
    ascending = tt;
    sized = refl;
    marks = λ k h. refl;
  }
  generate_attackers-Sampled (suc remaining) idx missing rng ids bitmap enough room =
      elim (Bool-cases (ltb 0 missing)) [
        | inl more ↦ elim (Bool-cases (ltb ((p.random_u64 rng).0 % suc remaining) missing)) [
          | inl take ↦
              rw (more, take)
                (Sampled-take idx remaining missing ids bitmap _ (ground arith) (omega arith) (
                  generate_attackers-Sampled remaining (idx + 1) (missing - 1) (p.random_u64 rng).1
                    (ids ++ idx ∷ []) (p.bitmap_set bitmap idx) (omega arith)
                    (omega (arith, laws.length-set bitmap idx))))
          | inr skip ↦
              rw (more, skip)
                (Sampled-skip idx remaining missing ids bitmap _ (
                  generate_attackers-Sampled remaining (idx + 1) missing (p.random_u64 rng).1 ids
                    bitmap
                    (ground (arith, mod-lt (p.random_u64 rng).0 {m = suc remaining} (omega arith)))
                    (omega arith)))
        ]
        | inr done ↦ rw done (record {
          picked = [];
          returned = sym (append-nil ids);
          complete = ground arith;
          ascending = tt;
          sized = refl;
          marks = λ k h. refl;
        })
      ]

  -- With a configured attack, no attackers stored yet, and more than one but at most 2 ^ 32 nodes,
  -- `initAttackers` makes exactly one node of the network an attacker, the one that it stores.
  pub init_attackers_single :
      (attack : AttackConfig) (lps : ℕ) (a : Attackers) (rng : Rng)
      → is_single attack ≡ true
      → a.attacker_ids ≡ none
      → 1 < lps
      → lps ≤ 2 ^ 32
      → (id : ℕ) × (id < lps)
        × (b : Attackers) × (init_attackers p attack lps a 1 (some rng)
            ≡ ok (b, some (p.random_u64 rng).1))
        × (b.attacker_ids ≡ some (id ∷ []))
        × (b.num_attackers ≡ 1)
        × ((k : ℕ) → k < lps → p.bitmap_check b.is_attacker_bitmap k ≡ (id == k))
  unfolding init_attackers
  init_attackers_single attack lps a rng single fresh many small =
      let id = (p.random_u64 rng).0 % lps in
      let below : id < lps = mod-lt (p.random_u64 rng).0 {m = lps} (omega arith) in
      let same : id % 2 ^ 32 ≡ id = omega arith in
      (
        id,
        below,
        record {
          attacker_ids = some (id ∷ []);
          num_attackers = 1;
          is_attacker_bitmap = p.bitmap_set (p.bitmap_initialize lps) id;
        },
        ground (arith, same),
        refl,
        refl,
        λ k h. ground (
          arith,
          laws.check-set (p.bitmap_initialize lps) id k,
          laws.check-initialize lps k,
          laws.capacity-initialize lps,
        ),
      )

  -- With a configured attack, a request for at least one attacker ends the program when attackers
  -- are stored already, when it is for more than one, or when they would be all the nodes.
  pub init_attackers_refuses :
      (attack : AttackConfig) (lps : ℕ) (a : Attackers) (count : ℕ) (rng : Rng)
      → is_single attack ≡ true
      → 0 < count
      → (a.attacker_ids ≢ none) ⊎ ((1 < count) ⊎ (lps ≤ count))
      → init_attackers p attack lps a count (some rng) ≡ abort
  unfolding init_attackers
  init_attackers_refuses attack lps a count rng single pos bad = ground arith
