-- ===== src/Crc/Division.antt =====
-- `generate_crc` against the division of polynomials over two elements, a number standing for the
-- polynomial of its digits.
use Prim.Native.Nat.{bit_xor}
use native.Mathlib.Nat.{one-le-pow, pow-le-pow_right, le_trans}
use comnet.Base.Xor.{
  test_bit, test_bit_below, xor_comm, xor_assoc, xor_self, xor_cancel, xor-zero, zero-xor,
}
use comnet.Base.{
  some, ℕ, zero, suc, ◌+◌, ◌*◌, ◌^◌, ◌≤◌, ◌<◌, ◌≡◌, ◌↔◌, refl, sym, ap, ap₂, ◌∙◌, arith, true, inl,
  inr, Bool-cases, ◌==◌, ltb, if◌then◌else◌, if_true, if_false,
}
use comnet.Crc.Remainder.{
  three_more, round, reduce, reduce-xor, reduce-lt, test_bit-generator, generator-lt,
}
use comnet.Crc.{crc_loop, generate_crc}
use comnet.Crc.Fits.{crc_loop-reduce, generate_crc-reduce}

pub some_injective : {x y : ℕ} → some x ≡ some y → x ≡ y
some_injective e = cc

-- The product of the generator with the polynomial of the first `n` coefficients of `q`.
unfoldable pub poly_mul : ℕ → (ℕ → ℕ) → ℕ → ℕ
poly_mul zero q g = 0
poly_mul (suc n) q g = bit_xor (if q n == 0 then 0 else g * 2 ^ n) (poly_mul n q g)

-- The coefficients of the quotient, as the loop finds them.
abbrev quotient : ℕ → ℕ → ℕ → ℕ → ℕ
quotient zero g x k = 0
quotient (suc n) g x k = if k == n then test_bit x (n + 3) else quotient n g (round n g x) k

eight-le : (n : ℕ) → 8 ≤ 2 ^ (n + 3)
eight-le n = omega (arith, three_more n, one-le-pow n 2 (omega arith))

reduce-small : (n g x : ℕ) → x < 8 → reduce n g x ≡ x
unfolding reduce
reduce-small zero g x h = refl
reduce-small (suc n) g x h =
    rw (test_bit_below (n + 3) x (omega (arith, eight-le n))) (reduce-small n g x h)

-- A multiple of the generator leaves nothing.
reduce-generator : (n j g : ℕ) → 8 ≤ g → g < 16 → j < n → reduce n g (g * 2 ^ j) ≡ 0
unfolding reduce
reduce-generator zero j g lo hi h = absurd (omega arith)
reduce-generator (suc n) j g lo hi h = elim (Bool-cases (ltb j n)) [
  | inl below ↦
      rw
        (test_bit_below (n + 3) (g * 2 ^ j)
          (le_trans (generator-lt j g hi) (pow-le-pow_right (omega arith) (ground arith))))
        (reduce-generator n j g lo hi (ground arith))
  | inr top ↦
      let same : j ≡ n = ground arith in
      rw (same, test_bit-generator n g lo hi, xor_self (g * 2 ^ n))
        (reduce-small n g 0 (omega arith))
]

reduce-poly_mul :
    (m n : ℕ) (q : ℕ → ℕ) (g : ℕ) → 8 ≤ g → g < 16 → m ≤ n → reduce n g (poly_mul m q g) ≡ 0
unfolding poly_mul
reduce-poly_mul zero n q g lo hi h = reduce-small n g 0 (omega arith)
reduce-poly_mul (suc m) n q g lo hi h =
    reduce-xor n g _ (poly_mul m q g)
    ∙ ap₂ bit_xor head (reduce-poly_mul m n q g lo hi (omega arith))
  where
    head : reduce n g (if q m == 0 then 0 else g * 2 ^ m) ≡ 0
    head = elim (Bool-cases (q m == 0)) [
      | inl off ↦ rw off (reduce-small n g 0 (omega arith))
      | inr on ↦ rw on (reduce-generator n m g lo hi (omega arith))
    ]

poly_mul_ext :
    (n : ℕ) (p q : ℕ → ℕ) (g : ℕ) → ((k : ℕ) → k < n → p k ≡ q k) → poly_mul n p g ≡ poly_mul n q g
unfolding poly_mul
poly_mul_ext zero p q g h = refl
poly_mul_ext (suc n) p q g h =
    ap₂ bit_xor (ap (λ (c : ℕ). if c == 0 then 0 else g * 2 ^ n) (h n (omega arith)))
      (poly_mul_ext n p q g (λ k lt. h k (omega arith)))

-- One round takes off the multiple that the digit tells.
round-divides :
    (n g x : ℕ) → x ≡ bit_xor (if test_bit x (n + 3) == 0 then 0 else g * 2 ^ n) (round n g x)
round-divides n g x = elim (Bool-cases (test_bit x (n + 3) == 0)) [
  | inl off ↦ rw off (sym (zero-xor x))
  | inr on ↦
      rw on (sym (ap (bit_xor (g * 2 ^ n)) (xor_comm x (g * 2 ^ n)) ∙ xor_cancel (g * 2 ^ n) x))
]

self_test : (n : ℕ) → (n == n) ≡ true
self_test n = ground arith

-- What the loop takes off is a multiple of the generator.
reduce-divides : (n g x : ℕ) → x ≡ bit_xor (poly_mul n (quotient n g x) g) (reduce n g x)
unfolding poly_mul reduce
reduce-divides zero g x = sym (zero-xor x)
reduce-divides (suc n) g x =
    round-divides n g x
    ∙ ap (bit_xor digit) (reduce-divides n g (round n g x))
    ∙ sym (xor_assoc digit _ (reduce n g (round n g x)))
    ∙ ap (λ t. bit_xor t (reduce n g (round n g x))) (ap₂ bit_xor head tail)
  where
    digit : ℕ
    digit = if test_bit x (n + 3) == 0 then 0 else g * 2 ^ n

    head : digit ≡ (if quotient (suc n) g x n == 0 then 0 else g * 2 ^ n)
    head = ap (λ (c : ℕ). if c == 0 then 0 else g * 2 ^ n) (sym (if_true _ _ _ (self_test n)))

    tail : poly_mul n (quotient n g (round n g x)) g ≡ poly_mul n (quotient (suc n) g x) g
    tail =
        poly_mul_ext n _ _ g (λ k lt. sym (if_false (k == n) (test_bit x (n + 3)) _ (ground arith)))

-- For a generator of four bits and data of `n`, at most 28: `generate_crc` divides. It ends with no
-- shift out of range, and the data, shifted by three, are a multiple of the generator and the
-- result, which has three bits.
pub generate_crc-divides :
    (g n value : ℕ)
    → 8 ≤ g
    → g < 16
    → n ≤ 28
    → value < 2 ^ n
    → (q : ℕ → ℕ) × (r : ℕ) × (generate_crc g n value ≡ some r)
      × (value * 2 ^ 3 ≡ bit_xor (poly_mul n q g) r)
      × (r < 8)
generate_crc-divides g n value lo hi few small = (
  quotient n g (value * 2 ^ 3),
  reduce n g (value * 2 ^ 3),
  generate_crc-reduce g n value hi few small,
  reduce-divides n g (value * 2 ^ 3),
  reduce-lt n g _ lo hi (omega (arith, three_more n, small)),
)

reduce-multiple : (n g e : ℕ) → 8 ≤ g → g < 16 → (q : ℕ → ℕ) → e ≡ poly_mul n q g → reduce n g e ≡ 0
reduce-multiple n g e lo hi q m = ap (reduce n g) m ∙ reduce-poly_mul n n q g lo hi (omega arith)

-- For a generator of four bits and at most 28 rounds, the loop leaves nothing of a word below 2 ^ 63
-- exactly if the word is a multiple of the generator, by a polynomial with as many coefficients as
-- the loop has rounds.
pub crc_loop-eq-zero_iff :
    (n g e : ℕ)
    → 8 ≤ g
    → g < 16
    → n ≤ 28
    → e < 2 ^ 63
    → (crc_loop n g e ≡ some 0) ↔ ((q : ℕ → ℕ) × (e ≡ poly_mul n q g))
crc_loop-eq-zero_iff n g e lo hi few word = (
  λ z.
      let nothing : reduce n g e ≡ 0 = some_injective (sym (crc_loop-reduce n g e hi few) ∙ z) in
      (quotient n g e, reduce-divides n g e ∙ ap (bit_xor _) nothing ∙ xor-zero _),
  λ m. crc_loop-reduce n g e hi few ∙ ap some (reduce-multiple n g e lo hi m.0 m.1),
)

-- For a generator of four bits and data of `n`, at most 28, `generate_crc` is the remainder: whenever
-- the shifted data are a multiple of the generator and three bits more, it returns those three bits.
pub generate_crc_unique :
    (g n value : ℕ) (q : ℕ → ℕ) (r : ℕ)
    → 8 ≤ g
    → g < 16
    → n ≤ 28
    → value < 2 ^ n
    → r < 8
    → value * 2 ^ 3 ≡ bit_xor (poly_mul n q g) r
    → generate_crc g n value ≡ some r
generate_crc_unique g n value q r lo hi few small three e =
    generate_crc-reduce g n value hi few small
    ∙ ap some (
        ap (reduce n g) e
        ∙ reduce-xor n g (poly_mul n q g) r
        ∙ ap₂ bit_xor (reduce-poly_mul n n q g lo hi (omega arith)) (reduce-small n g r three)
        ∙ zero-xor r)

-- A codeword, the data with the check bits behind, leaves nothing.
codeword-divides :
    (g n value : ℕ)
    → 8 ≤ g
    → g < 16
    → value < 2 ^ n
    → reduce n g (bit_xor (value * 2 ^ 3) (reduce n g (value * 2 ^ 3))) ≡ 0
codeword-divides g n value lo hi small =
    reduce-xor n g (value * 2 ^ 3) _
    ∙ ap (bit_xor (reduce n g (value * 2 ^ 3)))
        (reduce-small n g _ (reduce-lt n g _ lo hi (omega (arith, three_more n, small))))
    ∙ xor_self (reduce n g (value * 2 ^ 3))

-- For a generator of four bits and data of `n`, at most 28: an error below 2 ^ 63 in a codeword leaves
-- what it leaves by itself, so that it is seen or missed whatever the data are, and no shift is out
-- of range.
pub error-detected :
    (g n value e : ℕ)
    → 8 ≤ g
    → g < 16
    → n ≤ 28
    → value < 2 ^ n
    → e < 2 ^ 63
    → (r : ℕ) × (left : ℕ) × (generate_crc g n value ≡ some r)
      × (crc_loop n g e ≡ some left)
      × (crc_loop n g (bit_xor (bit_xor (value * 2 ^ 3) r) e) ≡ some left)
error-detected g n value e lo hi few small word = (
  reduce n g (value * 2 ^ 3),
  reduce n g e,
  generate_crc-reduce g n value hi few small,
  crc_loop-reduce n g e hi few,
  crc_loop-reduce n g _ hi few
      ∙ ap some (
          reduce-xor n g _ e
          ∙ ap (λ t. bit_xor t (reduce n g e)) (codeword-divides g n value lo hi small)
          ∙ zero-xor (reduce n g e)),
)
