-- ===== src/Base/Xor.antt =====
-- Laws of the exclusive or, from the digits that the native operation stands for.
use Prim.Native.Nat.{bit_xor, bit_xor-bitwise, digits, differ}
use native.Mathlib.Nat.{pow-suc}
use comnet.Base.{ℕ, zero, suc, ◌+◌, ◌*◌, ◌/◌, ◌%◌, ◌^◌, ◌≤◌, ◌<◌, ◌≡◌, refl, sym, ap, ◌∙◌, arith}

-- The digits of a xor with any amount of fuel that is enough.
abbrev xor_digits : ℕ → ℕ → ℕ → ℕ
xor_digits fuel a b = digits (λ y. y) differ fuel a b

enough_fuel : (m n a b : ℕ) → a ≤ m → a ≤ n → xor_digits m a b ≡ xor_digits n a b
enough_fuel zero zero a b hm hn = refl
enough_fuel zero (suc n) zero b hm hn = refl
enough_fuel (suc m) zero zero b hm hn = refl
enough_fuel (suc m) (suc n) zero b hm hn = refl
enough_fuel (suc m) (suc n) (suc a) b hm hn =
    omega (arith, enough_fuel m n (suc a / 2) (b / 2) (omega arith) (omega arith))
enough_fuel zero n (suc a) b hm hn = absurd (omega arith)
enough_fuel (suc m) zero (suc a) b hm hn = absurd (omega arith)

differ_digits : (x y : ℕ) → x < 2 → y < 2 → differ x y ≡ (x + y) % 2
differ_digits zero zero hx hy = refl
differ_digits zero (suc zero) hx hy = refl
differ_digits (suc zero) zero hx hy = refl
differ_digits (suc zero) (suc zero) hx hy = refl
differ_digits zero (suc (suc y)) hx hy = absurd (omega arith)
differ_digits (suc zero) (suc (suc y)) hx hy = absurd (omega arith)
differ_digits (suc (suc x)) y hx hy = absurd (omega arith)

-- One digit of the result.
pub xor_step : (a b : ℕ) → bit_xor a b ≡ bit_xor (a / 2) (b / 2) * 2 + (a + b) % 2
xor_step zero b = omega (arith, bit_xor-bitwise 0 b, bit_xor-bitwise 0 (b / 2))
xor_step (suc a) b = omega (
  arith,
  bit_xor-bitwise (suc a) b,
  bit_xor-bitwise (suc a / 2) (b / 2),
  enough_fuel a (suc a / 2) (suc a / 2) (b / 2) (omega arith) (omega arith),
  differ_digits (suc a % 2) (b % 2) (omega arith) (omega arith),
)

pub xor_half : (a b : ℕ) → bit_xor a b / 2 ≡ bit_xor (a / 2) (b / 2)
xor_half a b = omega (arith, xor_step a b)

pub xor_low : (a b : ℕ) → bit_xor a b % 2 ≡ (a + b) % 2
xor_low a b = omega (arith, xor_step a b)

-- The laws go by induction on a bound of the arguments: both digits and halves agree.
pub zero-xor : (b : ℕ) → bit_xor 0 b ≡ b
zero-xor b = bit_xor-bitwise 0 b

comm_below : (n a b : ℕ) → a ≤ n → b ≤ n → bit_xor a b ≡ bit_xor b a
comm_below zero zero zero ha hb = refl
comm_below zero (suc a) b ha hb = absurd (omega arith)
comm_below zero zero (suc b) ha hb = absurd (omega arith)
comm_below (suc n) a b ha hb =
    omega
      (arith, xor_step a b, xor_step b a, comm_below n (a / 2) (b / 2) (omega arith) (omega arith))

pub xor_comm : (a b : ℕ) → bit_xor a b ≡ bit_xor b a
xor_comm a b = comm_below (a + b) a b (omega arith) (omega arith)

assoc_below :
    (n a b c : ℕ) → a ≤ n → b ≤ n → c ≤ n → bit_xor (bit_xor a b) c ≡ bit_xor a (bit_xor b c)
assoc_below zero zero zero c ha hb hc = sym (zero-xor (bit_xor 0 c))
assoc_below zero (suc a) b c ha hb hc = absurd (omega arith)
assoc_below zero zero (suc b) c ha hb hc = absurd (omega arith)
assoc_below (suc n) a b c ha hb hc = omega (
  arith,
  xor_step (bit_xor a b) c,
  xor_step a (bit_xor b c),
  ap (λ t. bit_xor t (c / 2)) (xor_half a b),
  ap (λ t. bit_xor (a / 2) t) (xor_half b c),
  xor_low a b,
  xor_low b c,
  assoc_below n (a / 2) (b / 2) (c / 2) (omega arith) (omega arith) (omega arith),
)

pub xor_assoc : (a b c : ℕ) → bit_xor (bit_xor a b) c ≡ bit_xor a (bit_xor b c)
xor_assoc a b c = assoc_below (a + b + c) a b c (omega arith) (omega arith) (omega arith)

self_below : (n a : ℕ) → a ≤ n → bit_xor a a ≡ 0
self_below zero zero h = refl
self_below zero (suc a) h = absurd (omega arith)
self_below (suc n) a h = omega (arith, xor_step a a, self_below n (a / 2) (omega arith))

pub xor_self : (a : ℕ) → bit_xor a a ≡ 0
xor_self a = self_below a a (omega arith)

pub xor-zero : (a : ℕ) → bit_xor a 0 ≡ a
xor-zero a = xor_comm a 0 ∙ zero-xor a

-- The other arrangements of three.
pub xor_left_comm : (a b c : ℕ) → bit_xor a (bit_xor b c) ≡ bit_xor b (bit_xor a c)
xor_left_comm a b c = sym (xor_assoc a b c) ∙ ap (λ t. bit_xor t c) (xor_comm a b) ∙ xor_assoc b a c

pub xor_cancel : (a b : ℕ) → bit_xor a (bit_xor a b) ≡ b
xor_cancel a b = sym (xor_assoc a a b) ∙ ap (λ t. bit_xor t b) (xor_self a) ∙ zero-xor b

-- Digits above the first k, and the digits below.
pub xor-lt : (k a b : ℕ) → a < 2 ^ k → b < 2 ^ k → bit_xor a b < 2 ^ k
xor-lt zero zero zero ha hb = omega arith
xor-lt zero (suc a) b ha hb = absurd (omega arith)
xor-lt zero zero (suc b) ha hb = absurd (omega arith)
xor-lt (suc k) a b ha hb = omega (
  arith,
  xor_step a b,
  pow-suc 2 k,
  xor-lt k (a / 2) (b / 2) (omega (arith, pow-suc 2 k)) (omega (arith, pow-suc 2 k)),
)

-- The k-th digit: `x & (1 << k)`, as a number below 2.
unfoldable pub test_bit : ℕ → ℕ → ℕ
test_bit x zero = x % 2
test_bit x (suc k) = test_bit (x / 2) k

pub test_bit-xor : (k a b : ℕ) → test_bit (bit_xor a b) k ≡ (test_bit a k + test_bit b k) % 2
unfolding test_bit
test_bit-xor zero a b = omega (arith, xor_low a b)
test_bit-xor (suc k) a b = ap (λ t. test_bit t k) (xor_half a b) ∙ test_bit-xor k (a / 2) (b / 2)

pub test_bit-lt : (k x : ℕ) → test_bit x k < 2
unfolding test_bit
test_bit-lt zero x = omega arith
test_bit-lt (suc k) x = test_bit-lt k (x / 2)

-- Digit k is zero below 2 ^ k, and decides the half in which a number below 2 ^ (k + 1) lies.
pub test_bit_below : (k x : ℕ) → x < 2 ^ k → test_bit x k ≡ 0
unfolding test_bit
test_bit_below zero x h = omega arith
test_bit_below (suc k) x h = test_bit_below k (x / 2) (omega (arith, pow-suc 2 k))

pub lt_of_test_bit : (k x : ℕ) → x < 2 ^ suc k → test_bit x k ≡ 0 → x < 2 ^ k
unfolding test_bit
lt_of_test_bit zero x h e = omega arith
lt_of_test_bit (suc k) x h e =
    omega (arith, pow-suc 2 k, lt_of_test_bit k (x / 2) (omega (arith, pow-suc 2 (suc k))) e)
