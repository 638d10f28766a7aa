-- ===== src/Common/Bits.antt =====
-- Facts about `|` at variables: digit by digit, a field at a time, and on disjoint fields.
use Prim.Native.Nat.{
  ℕ, zero, suc, ◌+◌, ◌*◌, ◌/◌, ◌%◌, ◌≤◌, ◌<◌, max, digits, bit_or, bit_or-bitwise,
}
use mathlib.Core.Path.{◌≡◌, refl}
use native.Mathlib.Omega.{arith}

abbrev or_digits : ℕ → ℕ → ℕ → ℕ
or_digits n a b = digits (λ y. y) max n a b

or_digits_fuel : (n m a b : ℕ) → a ≤ n → a ≤ m → or_digits n a b ≡ or_digits m a b
or_digits_fuel zero zero a b p q = refl
or_digits_fuel zero (suc m) zero b p q = refl
or_digits_fuel zero (suc m) (suc a) b p q = absurd (omega arith)
or_digits_fuel (suc n) zero zero b p q = refl
or_digits_fuel (suc n) zero (suc a) b p q = absurd (omega arith)
or_digits_fuel (suc n) (suc m) zero b p q = refl
or_digits_fuel (suc n) (suc m) (suc a) b p q =
    omega (arith, or_digits_fuel n m (suc a / 2) (b / 2) (omega arith) (omega arith))

zero-bit_or : (b : ℕ) → bit_or 0 b ≡ b
zero-bit_or b = bit_or-bitwise 0 b

bit_or_step : (a b : ℕ) → bit_or a b ≡ bit_or (a / 2) (b / 2) * 2 + max (a % 2) (b % 2)
bit_or_step zero b = omega (arith, zero-bit_or b, zero-bit_or (b / 2))
bit_or_step (suc a) b = omega (
  arith,
  bit_or-bitwise (suc a) b,
  bit_or-bitwise (suc a / 2) (b / 2),
  or_digits_fuel a (suc a / 2) (suc a / 2) (b / 2) (omega arith) (omega arith),
)

-- The lowest bit of `a | b`, and what is above it.
pub bit_or-mod : (a b : ℕ) → bit_or a b % 2 ≡ max (a % 2) (b % 2)
bit_or-mod a b = omega (arith, bit_or_step a b)

pub bit_or-half : (a b : ℕ) → bit_or a b / 2 ≡ bit_or (a / 2) (b / 2)
bit_or-half a b = omega (arith, bit_or_step a b)

bit_or-zero_fuel : (n a : ℕ) → a ≤ n → bit_or a 0 ≡ a
bit_or-zero_fuel n zero h = refl
bit_or-zero_fuel zero (suc a) h = absurd (omega arith)
bit_or-zero_fuel (suc n) (suc a) h =
    omega (arith, bit_or_step (suc a) 0, bit_or-zero_fuel n (suc a / 2) (omega arith))

pub bit_or-zero : (a : ℕ) → bit_or a 0 ≡ a
bit_or-zero a = bit_or-zero_fuel a a (omega arith)

halves : ℕ → ℕ → ℕ
halves zero a = a
halves (suc k) a = halves k (a / 2)

bit_or-halves : (k a b : ℕ) → halves k (bit_or a b) ≡ bit_or (halves k a) (halves k b)
unfolding halves
bit_or-halves zero a b = refl
bit_or-halves (suc k) a b = rw (bit_or-half a b) (bit_or-halves k (a / 2) (b / 2))

halves-page : (a : ℕ) → halves 12 a ≡ a / 4096
unfolding halves
halves-page a = omega arith

-- The page number of `a | b` is the `|` of the page numbers.
pub bit_or-page : (a b : ℕ) → bit_or a b / 4096 ≡ bit_or (a / 4096) (b / 4096)
bit_or-page a b =
    rw (← halves-page (bit_or a b), ← halves-page a, ← halves-page b) (bit_or-halves 12 a b)

-- The bits that mean writable and user.
pub bit_or-mod_half : (a b : ℕ) → bit_or a b / 2 % 2 ≡ max (a / 2 % 2) (b / 2 % 2)
bit_or-mod_half a b = rw (bit_or-half a b) (bit_or-mod (a / 2) (b / 2))

pub bit_or-mod_quarter : (a b : ℕ) → bit_or a b / 4 % 2 ≡ max (a / 4 % 2) (b / 4 % 2)
bit_or-mod_quarter a b =
    let quarter : (c : ℕ) → c / 4 ≡ c / 2 / 2 = λ c. omega arith in
    rw (quarter (bit_or a b), bit_or-half a b, quarter a, quarter b)
      (bit_or-mod_half (a / 2) (b / 2))

scale : ℕ → ℕ → ℕ
scale zero a = a
scale (suc k) a = 2 * scale k a

double-half : (a : ℕ) → 2 * a / 2 ≡ a
double-half a = omega arith

bit_or-scale : (k a r : ℕ) → r < scale k 1 → bit_or (scale k a) r ≡ scale k a + r
unfolding scale
bit_or-scale zero a r h = let e : r ≡ 0 = omega arith in rw e (omega (arith, bit_or-zero a))
bit_or-scale (suc k) a r h =
    let step = bit_or_step (2 * scale k a) r in
    omega (arith, rw (double-half (scale k a)) at step, bit_or-scale k a (r / 2) (omega arith))

-- `(q << 10) | r` and `(q << 12) | r` are sums when `r` fits below.
pub bit_or-fields_ten : (q r : ℕ) → r < 1024 → bit_or (q * 1024) r ≡ q * 1024 + r
bit_or-fields_ten q r h = rw (← scale_ten q) (bit_or-scale 10 q r (omega (arith, scale_ten 1)))
  where
    scale_ten : (a : ℕ) → scale 10 a ≡ a * 1024
    scale_ten a = unfold scale in omega arith
