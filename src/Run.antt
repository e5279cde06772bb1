-- ===== src/Run.antt =====
-- How a call of the C code ends, and the monad that chains such calls.
use rblock_sim_reproducibili.Base.{◌≡◌, refl, subst, arith, Bool, true, false, Option, none, some}

-- A returned value; `abort()` or `exit()`; an access that C leaves undefined (an index out of
-- bounds, a null pointer); or the fuel of the model used up.
pub data Run {ℓ} (A : Type ℓ) : Type ℓ where
  abort fault out_of_fuel : Run A
  ok : A → Run A

-- A dereference: the null pointer, or an index out of bounds, is a fault.
abbrev pub deref {ℓ} : {A : Type ℓ} → Option A → Run A
deref none = fault
deref (some a) = ok a

-- Ends the program when the test holds.
abbrev pub abort_if : Bool → Run (Unit {0})
abort_if true = abort
abort_if false = ok tt

infixl 5 ◌>>=◌ ◌>>◌
-- The rest of the code runs only after a return.
abbrev pub ◌>>=◌ {ℓ κ} : {A : Type ℓ} {B : Type κ} → Run A → (A → Run B) → Run B
abort >>= rest = abort
fault >>= rest = fault
out_of_fuel >>= rest = out_of_fuel
ok a >>= rest = rest a

abbrev pub ◌>>◌ {ℓ} : {B : Type ℓ} → Run (Unit {0}) → Run B → Run B
first >> rest = first >>= λ _. rest

module _ {ℓ κ} {A : Type ℓ} {B : Type κ} where
  -- A chain of calls that returns: its first call returned.
  pub bind_returned :
      (m : Run A) (rest : A → Run B) {b : B}
      → (m >>= rest) ≡ ok b
      → (a : A) × (m ≡ ok a) × (rest a ≡ ok b)
  bind_returned abort rest h = cc
  bind_returned fault rest h = cc
  bind_returned out_of_fuel rest h = cc
  bind_returned (ok a) rest h = (a, refl, h)

-- Whatever the call returns has the property.
pub record Ensures {ℓ κ} {A : Type ℓ} (P : A → Type κ) (r : Run A) : Type (ℓ ⊔ κ) where
  pub holds : (a : A) → r ≡ ok a → P a

module _ {ℓ μ} {A : Type ℓ} where
  pub Ensures-ok : (P : A → Type μ) (a : A) → P a → Ensures P (ok a)
  Ensures-ok P a h = record { holds = λ b e. subst P (ok-inj a b e) h }
    where
      ok-inj : (a b : A) → ok a ≡ ok b → a ≡ b
      ok-inj a b e = ground (arith, e)

-- A chain of calls ensures what its rest ensures from each value that its first call may return.
pub Ensures-bind {ℓ κ μ ν} :
    {A : Type ℓ} {B : Type κ} {P : A → Type μ} {Q : B → Type ν} (m : Run A) {rest : A → Run B}
    → Ensures P m
    → ((a : A) → P a → Ensures Q (rest a))
    → Ensures Q (m >>= rest)
Ensures-bind m {rest} first next = record {
  holds = λ b e.
      let (a, returned, after) = bind_returned m rest e in
      (next a (first.holds a returned)).holds b after;
}

-- The same when nothing is known of the first call.
pub Ensures-then {ℓ κ ν} :
    {A : Type ℓ} {B : Type κ} {Q : B → Type ν} (m : Run A) {rest : A → Run B}
    → ((a : A) → Ensures Q (rest a))
    → Ensures Q (m >>= rest)
Ensures-then m {rest} next = record {
  holds = λ b e. let (a, returned, after) = bind_returned m rest e in (next a).holds b after;
}

pub Ensures-if {ℓ μ} :
    {A : Type ℓ} {P : A → Type μ} (b : Bool) {x y : Run A}
    → (b ≡ true → Ensures P x)
    → (b ≡ false → Ensures P y)
    → Ensures P (elim b [ true ↦ x | false ↦ y ])
Ensures-if true h k = h refl
Ensures-if false h k = k refl

pub Ensures-map {ℓ μ ν} :
    {A : Type ℓ} {P : A → Type μ} {Q : A → Type ν} {r : Run A}
    → ((a : A) → P a → Q a)
    → Ensures P r
    → Ensures Q r
Ensures-map f h = record { holds = λ a e. f a (h.holds a e) }
