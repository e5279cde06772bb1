-- ===== src/Network/Draws.antt =====
-- Repeated draws of a number, as in gossipBlock of RBlockSim/src/Network.c.
use rblock_sim_reproducibili.Base.{
  ℕ, zero, suc, ◌-◌, ◌≤◌, ◌<◌, ◌≡◌, ◌≢◌, refl, Bool-cases, inl, inr, true, false, List, [], ◌∷◌,
  length, arith, ◌==◌, if◌then◌else◌,
}
use rblock_sim_reproducibili.Platform.{Double, Rng, Platform}
use rblock_sim_reproducibili.Attacks.Sampling.{contains}

abbrev pub remove : ℕ → List ℕ → List ℕ
remove k [] = []
remove k (x ∷ xs) = if x == k then remove k xs else x ∷ remove k xs

length-remove-le : (k : ℕ) (xs : List ℕ) → length (remove k xs) ≤ length xs
length-remove-le k [] = omega arith
length-remove-le k (x ∷ xs) = ground (arith, length-remove-le k xs)

length-remove-lt : (k : ℕ) (xs : List ℕ) → contains xs k ≡ true → length (remove k xs) < length xs
length-remove-lt k [] h = cc
length-remove-lt k (x ∷ xs) h = ground (arith, length-remove-lt k xs, length-remove-le k xs)

contains-remove : (k j : ℕ) (xs : List ℕ) → j ≢ k → contains (remove k xs) j ≡ contains xs j
contains-remove k j [] h = refl
contains-remove k j (x ∷ xs) h = ground (arith, contains-remove k j xs)

-- Fewer than `n` numbers leave one below `n` out.
pub left_out : (n : ℕ) (xs : List ℕ) → length xs < n → (j : ℕ) × (j < n) × (contains xs j ≡ false)
left_out zero xs h = absurd (omega arith)
left_out (suc n) xs h = elim (Bool-cases (contains xs n)) [
  | inl seen ↦
      let (j, below, out) = left_out n (remove n xs) (omega (arith, length-remove-lt n xs)) in
      (j, omega arith, ground (arith, contains-remove n j xs))
  | inr unseen ↦ (n, omega arith, unseen)
]

-- The `k`-th draw from `[0, n)`, counting from zero.
abbrev pub nth_draw : Platform → ℕ → ℕ → Rng → ℕ
nth_draw p n zero rng = (p.random_range rng 0 (n - 1)).0
nth_draw p n (suc k) rng = nth_draw p n k (p.random_range rng 0 (n - 1)).1

module _ (p : Platform) (n : ℕ) (first : Rng) where
  -- The states of the generator that gossipBlock may come through, from `first` on: each step draws a
  -- peer or the delay of a message.
  pub data Reached : Rng → Type 0 where
    at_first : Reached first
    after_draw : (r : Rng) → Reached r → Reached (p.random_range r 0 (n - 1)).1
    after_delay : (r : Rng) (mean : Double) → Reached r → Reached (p.expent r mean).1

  -- What RandomRange and its generator, a xoshiro, document: a draw stays in its range, bounds
  -- included, and from a state with any bit set the generator runs through all such states, so that
  -- every value of the range turns up. `f` bounds how many draws that takes.
  pub record IsFair (f : ℕ) : Type 0 where
    pub in_range : (r : Rng) → Reached r → 0 < n → (p.random_range r 0 (n - 1)).0 < n
    pub covers : (r : Rng) (j : ℕ) → Reached r → j < n → (k : ℕ) × (k < f) × (nth_draw p n k r ≡ j)
