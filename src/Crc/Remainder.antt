-- ===== src/Crc/Remainder.antt =====
-- The loop of `generate_crc` over words without a bound reduces, and is linear over the exclusive or.
use Prim.Native.Nat.{bit_xor}
use native.Mathlib.Nat.{pow-suc, suc-add, one-le-pow}
use native.Mathlib.Numerals.{towards_suc}
use comnet.Base.Xor.{
  test_bit, test_bit-xor, test_bit-lt, lt_of_test_bit, xor_comm, xor_assoc, xor_cancel, xor-lt,
}
use comnet.Base.{
  ℕ, zero, suc, ◌+◌, ◌*◌, ◌/◌, ◌^◌, ◌≤◌, ◌<◌, ◌≡◌, refl, sym, ap, ◌∙◌, arith, inl, inr, Bool-cases,
  ◌==◌, if◌then◌else◌,
}

pub three_more : (j : ℕ) → 2 ^ (j + 3) ≡ 8 * 2 ^ j
three_more j =
    simp towards_suc (omega (arith, pow-suc 2 (suc (suc j)), pow-suc 2 (suc j), pow-suc 2 j))

four_more : (j : ℕ) → 2 ^ (j + 4) ≡ 2 ^ suc (j + 3)
four_more j = ap (λ k. 2 ^ k) (omega arith)

-- The highest digit of the shifted generator.
pub test_bit-generator : (j g : ℕ) → 8 ≤ g → g < 16 → test_bit (g * 2 ^ j) (j + 3) ≡ 1
unfolding test_bit
test_bit-generator zero g lo hi = omega arith
test_bit-generator (suc j) g lo hi =
    rw suc-add (ap (λ t. test_bit t (j + 3)) half ∙ test_bit-generator j g lo hi)
  where
    half : g * 2 ^ suc j / 2 ≡ g * 2 ^ j
    half = omega (arith, ap (λ (t : ℕ). g * t) (pow-suc 2 j))

times_lt : (g p : ℕ) → g < 16 → 0 < p → g * p < 16 * p
times_lt g p h pos = grind arith

pub generator-lt : (j g : ℕ) → g < 16 → g * 2 ^ j < 2 ^ suc (j + 3)
generator-lt j g hi =
    omega
      (arith, times_lt g (2 ^ j) hi (one-le-pow j 2 (omega arith)), three_more j, pow-suc 2 (j + 3))

-- Taking the generator off clears the highest digit.
clears :
    (j g x : ℕ)
    → 8 ≤ g
    → g < 16
    → x < 2 ^ suc (j + 3)
    → test_bit x (j + 3) ≡ 1
    → bit_xor x (g * 2 ^ j) < 2 ^ (j + 3)
clears j g x lo hi small top =
    lt_of_test_bit (j + 3) _ (xor-lt (suc (j + 3)) x (g * 2 ^ j) small (generator-lt j g hi))
      (omega (arith, test_bit-xor (j + 3) x (g * 2 ^ j), test_bit-generator j g lo hi))

-- What one round makes of `crc`.
abbrev pub round : ℕ → ℕ → ℕ → ℕ
round j g x = if test_bit x (j + 3) == 0 then x else bit_xor x (g * 2 ^ j)

round-lt : (j g x : ℕ) → 8 ≤ g → g < 16 → x < 2 ^ suc (j + 3) → round j g x < 2 ^ (j + 3)
round-lt j g x lo hi small = elim (Bool-cases (test_bit x (j + 3) == 0)) [
  | inl off ↦ rw off (lt_of_test_bit (j + 3) x small (ground arith))
  | inr on ↦ rw on (clears j g x lo hi small (ground (arith, test_bit-lt (j + 3) x)))
]

-- The rounds without the tests of the shifts.
unfoldable pub reduce : ℕ → ℕ → ℕ → ℕ
reduce zero g x = x
reduce (suc n) g x = reduce n g (round n g x)

-- The remainder has three bits, one fewer than the generator.
pub reduce-lt : (n g x : ℕ) → 8 ≤ g → g < 16 → x < 2 ^ (n + 3) → reduce n g x < 8
unfolding reduce
reduce-lt zero g x lo hi small = small
reduce-lt (suc n) g x lo hi small =
    reduce-lt n g _ lo hi (round-lt n g x lo hi (rw (← suc-add) small))

round-xor : (j g x y : ℕ) → round j g (bit_xor x y) ≡ bit_xor (round j g x) (round j g y)
round-xor j g x y = digits (test_bit x (j + 3)) (test_bit y (j + 3)) refl refl
  where
    digits :
        (a b : ℕ)
        → test_bit x (j + 3) ≡ a
        → test_bit y (j + 3) ≡ b
        → round j g (bit_xor x y) ≡ bit_xor (round j g x) (round j g y)
    digits zero zero ea eb = rw (test_bit-xor (j + 3) x y, ea, eb) refl
    digits zero (suc zero) ea eb = rw (test_bit-xor (j + 3) x y, ea, eb) (xor_assoc x y (g * 2 ^ j))
    digits (suc zero) zero ea eb =
        rw (test_bit-xor (j + 3) x y, ea, eb)
          (xor_assoc x y (g * 2 ^ j)
            ∙ ap (bit_xor x) (xor_comm y (g * 2 ^ j))
            ∙ sym (xor_assoc x (g * 2 ^ j) y))
    digits (suc zero) (suc zero) ea eb =
        rw (test_bit-xor (j + 3) x y, ea, eb)
          (sym (
            xor_assoc x (g * 2 ^ j) (bit_xor y (g * 2 ^ j))
            ∙ ap (bit_xor x)
                (ap (bit_xor (g * 2 ^ j)) (xor_comm y (g * 2 ^ j)) ∙ xor_cancel (g * 2 ^ j) y)))
    digits (suc (suc a)) b ea eb = absurd (omega (arith, test_bit-lt (j + 3) x))
    digits zero (suc (suc b)) ea eb = absurd (omega (arith, test_bit-lt (j + 3) y))
    digits (suc zero) (suc (suc b)) ea eb = absurd (omega (arith, test_bit-lt (j + 3) y))

-- The remainder of a sum is the sum of the remainders.
pub reduce-xor : (n g x y : ℕ) → reduce n g (bit_xor x y) ≡ bit_xor (reduce n g x) (reduce n g y)
unfolding reduce
reduce-xor zero g x y = refl
reduce-xor (suc n) g x y =
    ap (reduce n g) (round-xor n g x y) ∙ reduce-xor n g (round n g x) (round n g y)
