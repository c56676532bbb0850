-- ===== src/Base/Or.antt =====
-- The digits of the inclusive or.
use Prim.Native.Nat.{bit_or, bit_or-bitwise, digits, max}
use native.Mathlib.Nat.{pow-suc, one-le-pow}
use comnet.Base.Xor.{test_bit, test_bit_below}
use comnet.Base.{ℕ, zero, suc, ◌+◌, ◌*◌, ◌/◌, ◌%◌, ◌^◌, ◌≤◌, ◌<◌, ◌≡◌, ◌≢◌, refl, ap, ◌∙◌, arith}

abbrev or_digits : ℕ → ℕ → ℕ → ℕ
or_digits fuel a b = digits (λ y. y) max fuel a b

enough_fuel : (m n a b : ℕ) → a ≤ m → a ≤ n → or_digits m a b ≡ or_digits n a b
enough_fuel zero zero a b hm hn = refl
enough_fuel zero (suc n) zero b hm hn = refl
enough_fuel (suc m) zero zero b hm hn = refl
enough_fuel (suc m) (suc n) zero b hm hn = refl
enough_fuel (suc m) (suc n) (suc a) b hm hn =
    omega (arith, enough_fuel m n (suc a / 2) (b / 2) (omega arith) (omega arith))
enough_fuel zero n (suc a) b hm hn = absurd (omega arith)
enough_fuel (suc m) zero (suc a) b hm hn = absurd (omega arith)

-- One digit of the result.
or_step : (a b : ℕ) → bit_or a b ≡ bit_or (a / 2) (b / 2) * 2 + max (a % 2) (b % 2)
or_step zero b = omega (arith, bit_or-bitwise 0 b, bit_or-bitwise 0 (b / 2))
or_step (suc a) b = omega (
  arith,
  bit_or-bitwise (suc a) b,
  bit_or-bitwise (suc a / 2) (b / 2),
  enough_fuel a (suc a / 2) (suc a / 2) (b / 2) (omega arith) (omega arith),
)

or_half : (a b : ℕ) → bit_or a b / 2 ≡ bit_or (a / 2) (b / 2)
or_half a b = omega (arith, or_step a b)

pub test_bit-or : (k a b : ℕ) → test_bit (bit_or a b) k ≡ max (test_bit a k) (test_bit b k)
unfolding test_bit
test_bit-or zero a b = omega (arith, or_step a b)
test_bit-or (suc k) a b = ap (λ t. test_bit t k) (or_half a b) ∙ test_bit-or k (a / 2) (b / 2)

pub or-lt : (k a b : ℕ) → a < 2 ^ k → b < 2 ^ k → bit_or a b < 2 ^ k
or-lt zero zero zero ha hb = omega (arith, bit_or-bitwise 0 0)
or-lt zero (suc a) b ha hb = absurd (omega arith)
or-lt zero zero (suc b) ha hb = absurd (omega arith)
or-lt (suc k) a b ha hb = omega (
  arith,
  or_step a b,
  pow-suc 2 k,
  or-lt k (a / 2) (b / 2) (omega (arith, pow-suc 2 k)) (omega (arith, pow-suc 2 k)),
)

half_power : (i : ℕ) → 2 ^ suc i / 2 ≡ 2 ^ i
half_power i = omega (arith, pow-suc 2 i)

pub test_bit-pow_same : (i : ℕ) → test_bit (2 ^ i) i ≡ 1
unfolding test_bit
test_bit-pow_same zero = refl
test_bit-pow_same (suc i) = ap (λ t. test_bit t i) (half_power i) ∙ test_bit-pow_same i

pub test_bit-pow_other : (i k : ℕ) → i ≢ k → test_bit (2 ^ i) k ≡ 0
unfolding test_bit
test_bit-pow_other zero zero h = absurd (h refl)
test_bit-pow_other zero (suc k) h = test_bit_below k 0 (one-le-pow k 2 (omega arith))
test_bit-pow_other (suc i) zero h = omega (arith, pow-suc 2 i)
test_bit-pow_other (suc i) (suc k) h =
    ap (λ t. test_bit t k) (half_power i) ∙ test_bit-pow_other i k (λ e. h (ap suc e))
