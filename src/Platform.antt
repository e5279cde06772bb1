-- ===== src/Platform.antt =====
-- What RBlockSim calls and does not implement: the bitmaps of RBlockSim/external/bitmap.h, the
-- random numbers of ROOT-Sim_rng, and the arithmetic of doubles.
use rblock_sim_reproducibili.Base.{
  ℕ, ◌*◌, ◌≤◌, ◌<◌, ◌≡◌, Bool, true, false, List, length, ◌==◌, not, ◌&&◌, ◌||◌, ltb, if◌then◌else◌,
}

-- A double stands as its place in the order of the doubles: `<` on places is `<` on doubles. Not a
-- number has a place of its own, `nan`, and is compared by `less` and `same_double`. Only an option of the
-- command line may be one; elsewhere `<` is that of the places.
abbrev pub Double : Type 0
Double = ℕ

-- A `block_bitmap *`: the bytes that it points to.
abbrev pub Bytes : Type 0
Bytes = List ℕ

-- A `struct rng_t`: its words.
abbrev pub Rng : Type 0
Rng = List ℕ

pub record Platform : Type 0 where
  pub bitmap_initialize : ℕ → Bytes
  pub bitmap_check : Bytes → ℕ → Bool
  pub bitmap_set : Bytes → ℕ → Bytes
  pub bitmap_reset : Bytes → ℕ → Bytes
  pub initialize_stream : ℕ → Rng
  pub random_u64 : Rng → ℕ × Rng
  -- RandomRange, with both bounds included
  pub random_range : Rng → ℕ → ℕ → ℕ × Rng
  -- Random, as the double that it draws from [0, 1)
  pub random : Rng → Double × Rng
  pub expent : Rng → Double → Double × Rng
  pub normal : Rng → Double × Rng
  -- the conversion of a double to an unsigned integer, towards zero
  pub truncate : Double → ℕ
  pub of_ℕ : ℕ → Double
  pub add : Double → Double → Double
  pub sub : Double → Double → Double
  pub mul : Double → Double → Double
  pub div : Double → Double → Double
  -- the double nearest to m / 10 ^ k
  pub decimal : ℕ → ℕ → Double
  pub minus_one : Double
  pub nan : Double

module _ (p : Platform) where
  abbrev pub is_nan : Double → Bool
  is_nan x = x == p.nan

  -- `<` and `==` of C, which are false of a NaN.
  abbrev pub less : Double → Double → Bool
  less x y = not (is_nan x || is_nan y) && ltb x y

  abbrev pub same_double : Double → Double → Bool
  same_double x y = not (is_nan x || is_nan y) && x == y

-- The number of bits that a bitmap holds.
abbrev pub capacity : Bytes → ℕ
capacity b = 8 * length b

-- What bitmap.h documents; it checks no bounds, so an index is to lie below the capacity.
pub record BitmapLaws (p : Platform) : Type 0 where
  pub capacity-initialize : (n : ℕ) → n ≤ capacity (p.bitmap_initialize n)
  pub check-initialize : (n i : ℕ) → i < n → p.bitmap_check (p.bitmap_initialize n) i ≡ false
  pub length-set : (b : Bytes) (i : ℕ) → length (p.bitmap_set b i) ≡ length b
  pub length-reset : (b : Bytes) (i : ℕ) → length (p.bitmap_reset b i) ≡ length b
  pub check-set :
      (b : Bytes) (i j : ℕ)
      → i < capacity b
      → j < capacity b
      → p.bitmap_check (p.bitmap_set b i) j ≡ (if i == j then true else p.bitmap_check b j)
  pub check-reset :
      (b : Bytes) (i j : ℕ)
      → i < capacity b
      → j < capacity b
      → p.bitmap_check (p.bitmap_reset b i) j ≡ (if i == j then false else p.bitmap_check b j)
