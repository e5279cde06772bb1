-- ===== src/Tests/Machine.antt =====
-- A platform that meets the assumptions of Platform: bitmaps in one number, random numbers that count.
use rblock_sim_reproducibili.Base.{
  ℕ, zero, suc, ◌+◌, ◌-◌, ◌*◌, ◌^◌, ◌/◌, ◌%◌, ◌<◌, ◌≡◌, refl, Bool, true, false, [], ◌∷◌, length,
  replicate, length-replicate, arith, ap, ◌∙◌, ◌==◌, if◌then◌else◌,
}
use rblock_sim_reproducibili.Platform.{Bytes, Rng, Platform, BitmapLaws, capacity}
use rblock_sim_reproducibili.Network.Draws.{IsFair, nth_draw}

abbrev pub test_bit : ℕ → ℕ → Bool
test_bit x zero = x % 2 == 1
test_bit x (suc i) = test_bit (x / 2) i

abbrev set_bit : ℕ → ℕ → ℕ
set_bit x zero = x / 2 * 2 + 1
set_bit x (suc i) = x % 2 + 2 * set_bit (x / 2) i

abbrev reset_bit : ℕ → ℕ → ℕ
reset_bit x zero = x / 2 * 2
reset_bit x (suc i) = x % 2 + 2 * reset_bit (x / 2) i

test-set_bit : (x i j : ℕ) → test_bit (set_bit x i) j ≡ (if i == j then true else test_bit x j)
test-set_bit x zero zero = ground arith
test-set_bit x zero (suc j) =
    let e : set_bit x 0 / 2 ≡ x / 2 = omega arith in ground (arith, ap (λ y. test_bit y j) e)
test-set_bit x (suc i) zero = ground arith
test-set_bit x (suc i) (suc j) =
    let e : (x % 2 + 2 * set_bit (x / 2) i) / 2 ≡ set_bit (x / 2) i = omega arith in
    rw e (ground (arith, test-set_bit (x / 2) i j))

test-reset_bit : (x i j : ℕ) → test_bit (reset_bit x i) j ≡ (if i == j then false else test_bit x j)
test-reset_bit x zero zero = ground arith
test-reset_bit x zero (suc j) =
    let e : reset_bit x 0 / 2 ≡ x / 2 = omega arith in ground (arith, ap (λ y. test_bit y j) e)
test-reset_bit x (suc i) zero = ground arith
test-reset_bit x (suc i) (suc j) =
    let e : (x % 2 + 2 * reset_bit (x / 2) i) / 2 ≡ reset_bit (x / 2) i = omega arith in
    rw e (ground (arith, test-reset_bit (x / 2) i j))

pub test_bit-zero : (i : ℕ) → test_bit 0 i ≡ false
test_bit-zero zero = refl
test_bit-zero (suc i) = test_bit-zero i

abbrev check : Bytes → ℕ → Bool
check [] i = false
check (x ∷ xs) i = test_bit x i

abbrev mark : Bytes → ℕ → Bytes
mark [] i = []
mark (x ∷ xs) i = set_bit x i ∷ xs

abbrev unmark : Bytes → ℕ → Bytes
unmark [] i = []
unmark (x ∷ xs) i = reset_bit x i ∷ xs

abbrev initialize : ℕ → Bytes
initialize n = replicate n 0

-- The next value of the counter that is the generator's state.
abbrev count : Rng → ℕ
count [] = 0
count (x ∷ xs) = x

abbrev step : Rng → Rng
step r = (count r + 1) ∷ []

abbrev pub machine : Platform
machine = record {
  bitmap_initialize = initialize;
  bitmap_check = check;
  bitmap_set = mark;
  bitmap_reset = unmark;
  initialize_stream = λ seed. seed ∷ [];
  random_u64 = λ r. (count r, step r);
  random_range = λ r lo hi. (lo + count r % (hi - lo + 1), step r);
  random = λ r. (0, step r);
  expent = λ r mean. (mean, step r);
  normal = λ r. (0, step r);
  truncate = λ x. x / 1000;
  of_ℕ = λ x. x * 1000;
  add = λ x y. x + y;
  sub = λ x y. x - y;
  mul = λ x y. x * y / 1000;
  div = λ x y. x * 1000 / y;
  decimal = λ m k. m * 1000 / 10 ^ k;
  minus_one = 0;
  nan = 7;
}

check-initialize : (n i : ℕ) → i < n → check (initialize n) i ≡ false
check-initialize zero i h = absurd (omega arith)
check-initialize (suc n) i h = test_bit-zero i

capacity-initialize : (n : ℕ) → n < capacity (initialize n) + 1
capacity-initialize n = omega (arith, length-replicate {A = ℕ} n 0)

length-mark : (b : Bytes) (i : ℕ) → length (mark b i) ≡ length b
length-mark [] i = refl
length-mark (x ∷ xs) i = refl

length-unmark : (b : Bytes) (i : ℕ) → length (unmark b i) ≡ length b
length-unmark [] i = refl
length-unmark (x ∷ xs) i = refl

check-mark :
    (b : Bytes) (i j : ℕ)
    → i < capacity b
    → j < capacity b
    → check (mark b i) j ≡ (if i == j then true else check b j)
check-mark [] i j h k = absurd (omega arith)
check-mark (x ∷ xs) i j h k = test-set_bit x i j

check-unmark :
    (b : Bytes) (i j : ℕ)
    → i < capacity b
    → j < capacity b
    → check (unmark b i) j ≡ (if i == j then false else check b j)
check-unmark [] i j h k = absurd (omega arith)
check-unmark (x ∷ xs) i j h k = test-reset_bit x i j

pub machine-BitmapLaws : BitmapLaws machine
machine-BitmapLaws = record {
  capacity-initialize = λ n. omega (arith, capacity-initialize n);
  check-initialize = check-initialize;
  length-set = length-mark;
  length-reset = length-unmark;
  check-set = check-mark;
  check-reset = check-unmark;
}

-- Two draws from two values give both.
nth_draw-two : (k : ℕ) (rng : Rng) → nth_draw machine 2 k rng ≡ (count rng + k) % 2
nth_draw-two zero rng = omega arith
nth_draw-two (suc k) rng = nth_draw-two k _ ∙ omega arith

pub machine-IsFair : (first : Rng) → IsFair machine 2 first 2
machine-IsFair first = record {
  in_range = λ rng reached some_peers. omega arith;
  covers = λ rng j reached h.
      ((count rng + j) % 2, omega arith, omega (arith, nth_draw-two ((count rng + j) % 2) rng));
}
