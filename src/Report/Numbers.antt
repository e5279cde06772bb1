-- ===== src/Report/Numbers.antt =====
-- The numbers in the report of RBlockSim/src/Statistics.c: the conversion `%lu`, and a reader for it.
use rblock_sim_reproducibili.Base.{
  ℕ, zero, suc, ◌+◌, ◌-◌, ◌*◌, ◌/◌, ◌%◌, ◌^◌, ◌≤◌, ◌<◌, ◌≡◌, refl, ◌∙◌, ap, Bool-cases, inl, inr,
  [], ◌∷◌, length, ltb, Bool, true, false, arith, ◌&&◌, leb,
}
use rblock_sim_reproducibili.Report.{Text, print_digits, print_number}

abbrev pub is_digit : ℕ → Bool
is_digit c = leb 48 c && leb c 57

-- The number that the digits at the front of a text continue, and the rest.
unfoldable pub read_digits : ℕ → Text → ℕ × Text
read_digits n [] = (n, [])
read_digits n (c ∷ s) = elim (is_digit c) [
  | true ↦ read_digits (n * 10 + (c - 48)) s
  | false ↦ (n, c ∷ s)
]

read_digits-digit :
    (n d : ℕ) (s : Text) → d < 10 → read_digits n ((48 + d) ∷ s) ≡ read_digits (n * 10 + d) s
unfolding read_digits
read_digits-digit n d s h = ground (arith, ap (λ m. read_digits m s) (shifted n d))
  where
    shifted : (n d : ℕ) → n * 10 + (48 + d - 48) ≡ n * 10 + d
    shifted n d = omega arith

-- Reading stops in front of anything else.
read_digits-stop : (n c : ℕ) (s : Text) → is_digit c ≡ false → read_digits n (c ∷ s) ≡ (n, c ∷ s)
unfolding read_digits
read_digits-stop n c s h = rw (h, read_digits) refl

print_digits-small :
    (f n : ℕ) (rest : Text) → n < 10 → print_digits (suc f) n rest ≡ (48 + n % 10) ∷ rest
unfolding print_digits
print_digits-small f n rest h = ground arith

print_digits-big :
    (f n : ℕ) (rest : Text)
    → 10 ≤ n
    → print_digits (suc f) n rest ≡ print_digits f (n / 10) ((48 + n % 10) ∷ rest)
unfolding print_digits
print_digits-big f n rest h = ground arith

read_digits-print_digits :
    (f n : ℕ) (rest : Text) → n < f → read_digits 0 (print_digits f n rest) ≡ read_digits n rest
read_digits-print_digits zero n rest h = absurd (omega arith)
read_digits-print_digits (suc f) n rest h = elim (Bool-cases (ltb n 10)) [
  | inl small ↦
      let value : 0 * 10 + n % 10 ≡ n = ground (arith, small) in
      ap (read_digits 0) (print_digits-small f n rest (ground (arith, small)))
      ∙ read_digits-digit 0 (n % 10) rest (omega arith)
      ∙ ap (λ m. read_digits m rest) value
  | inr big ↦
      let value : n / 10 * 10 + n % 10 ≡ n = omega arith in
      ap (read_digits 0) (print_digits-big f n rest (ground (arith, big)))
      ∙ read_digits-print_digits f (n / 10) ((48 + n % 10) ∷ rest) (ground (arith, big))
      ∙ read_digits-digit (n / 10) (n % 10) rest (omega arith)
      ∙ ap (λ m. read_digits m rest) value
]

-- A printed number in front of something else is read back.
pub read_digits-print_number :
    (n c : ℕ) (rest : Text)
    → is_digit c ≡ false
    → read_digits 0 (print_number n (c ∷ rest)) ≡ (n, c ∷ rest)
read_digits-print_number n c rest h =
    read_digits-print_digits (suc n) n (c ∷ rest) (omega arith) ∙ read_digits-stop n c rest h

-- A number below 10 ^ k has at most `k` digits.
length-print_digits :
    (f n k : ℕ) (rest : Text)
    → n < f
    → n < 10 ^ suc k
    → length (print_digits f n rest) ≤ suc k + length rest
length-print_digits zero n k rest h low = absurd (omega arith)
length-print_digits (suc f) n zero rest h low =
    omega (arith, ap length (print_digits-small f n rest (omega arith)))
length-print_digits (suc f) n (suc k) rest h low = elim (Bool-cases (ltb n 10)) [
  | inl small ↦ omega (arith, ap length (print_digits-small f n rest (ground (arith, small))))
  | inr big ↦
      let high : 10 ≤ n = ground (arith, big) in
      let shorter =
        length-print_digits f (n / 10) k ((48 + n % 10) ∷ rest) (omega arith) (omega arith) in
      omega (arith, ap length (print_digits-big f n rest high), shorter)
]

-- A 64-bit number has at most twenty digits.
pub length-print_number :
    (n : ℕ) (rest : Text) → n < 2 ^ 64 → length (print_number n rest) ≤ 20 + length rest
length-print_number n rest h = length-print_digits (suc n) n 19 rest (omega arith) (omega arith)
