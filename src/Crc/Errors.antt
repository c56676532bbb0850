-- ===== src/Crc/Errors.antt =====
-- What `make_bit_error` makes of random numbers.
use Prim.Native.Nat.{bit_or}
use native.Mathlib.Nat.{pow-suc, one-le-pow}
use comnet.Base.{
  ℕ, zero, suc, ◌+◌, ◌%◌, ◌^◌, ◌<◌, ◌≡◌, ◌≢◌, refl, subst, ◌∙◌, arith, Bool-cases, inl, inr, ltb,
  if◌then◌else◌,
}
use comnet.Base.Xor.{test_bit, test_bit-lt, test_bit_below}
use comnet.Base.Or.{test_bit-or, or-lt, test_bit-pow_same, test_bit-pow_other}
use comnet.Crc.{error_loop, make_bit_error}

-- Whether a bit is hit.
abbrev pub hit : (ℕ → ℕ) → ℕ → ℕ → ℕ
hit rand prob k = if ltb (rand k % 100) prob then 1 else 0

abbrev step : (ℕ → ℕ) → ℕ → ℕ → ℕ → ℕ
step rand prob i ret = if ltb (rand i % 100) prob then bit_or ret (2 ^ i) else ret

step-other :
    (rand : ℕ → ℕ) (prob i k ret : ℕ) → i ≢ k → test_bit (step rand prob i ret) k ≡ test_bit ret k
step-other rand prob i k ret h = elim (Bool-cases (ltb (rand i % 100) prob)) [
  | inl low ↦ rw low (omega (arith, test_bit-or k ret (2 ^ i), test_bit-pow_other i k h))
  | inr high ↦ rw high refl
]

step-same :
    (rand : ℕ → ℕ) (prob i ret : ℕ)
    → ret < 2 ^ i
    → test_bit (step rand prob i ret) i ≡ hit rand prob i
step-same rand prob i ret h = elim (Bool-cases (ltb (rand i % 100) prob)) [
  | inl low ↦
      rw low (omega (arith, test_bit-or i ret (2 ^ i), test_bit-pow_same i, test_bit-lt i ret))
  | inr high ↦ rw high (test_bit_below i ret h)
]

step-lt : (rand : ℕ → ℕ) (prob i ret : ℕ) → ret < 2 ^ i → step rand prob i ret < 2 ^ suc i
step-lt rand prob i ret h = elim (Bool-cases (ltb (rand i % 100) prob)) [
  | inl low ↦
      rw low
        (or-lt (suc i) ret (2 ^ i) wide (omega (arith, pow-suc 2 i, one-le-pow i 2 (omega arith))))
  | inr high ↦ rw high wide
]
  where
    wide : ret < 2 ^ suc i
    wide = omega (arith, pow-suc 2 i)

-- The bits below `i` are done.
error_loop-done :
    (rows i : ℕ) (rand : ℕ → ℕ) (prob ret k : ℕ)
    → k < i
    → test_bit (error_loop rows i prob rand ret) k ≡ test_bit ret k
unfolding error_loop
error_loop-done zero i rand prob ret k lt = refl
error_loop-done (suc rows) i rand prob ret k lt =
    error_loop-done rows (i + 1) rand prob (step rand prob i ret) k (omega arith)
    ∙ step-other rand prob i k ret (λ e. omega (arith, e))

error_loop-hit :
    (rows i : ℕ) (rand : ℕ → ℕ) (prob ret j : ℕ)
    → ret < 2 ^ i
    → j < rows
    → test_bit (error_loop rows i prob rand ret) (i + j) ≡ hit rand prob (i + j)
unfolding error_loop
error_loop-hit zero i rand prob ret j h lt = absurd (omega arith)
error_loop-hit (suc rows) i rand prob ret zero h lt =
    error_loop-done rows (i + 1) rand prob (step rand prob i ret) (i + 0) (omega arith)
    ∙ subst (λ k. test_bit (step rand prob i ret) k ≡ hit rand prob k) (same i)
        (step-same rand prob i ret h)
  where
    same : (n : ℕ) → n ≡ n + 0
    same n = omega arith
error_loop-hit (suc rows) i rand prob ret (suc j) h lt =
    subst
      (λ k. test_bit (error_loop rows (i + 1) prob rand (step rand prob i ret)) k ≡ hit rand prob k)
      (next i j)
      (error_loop-hit rows (i + 1) rand prob (step rand prob i ret) j
        (subst (λ k. step rand prob i ret < 2 ^ k) (more i) (step-lt rand prob i ret h))
        (omega arith))
  where
    next : (n m : ℕ) → n + 1 + m ≡ n + suc m
    next n m = omega arith

    more : (n : ℕ) → suc n ≡ n + 1
    more n = omega arith

error_loop-lt :
    (rows i : ℕ) (rand : ℕ → ℕ) (prob ret : ℕ)
    → ret < 2 ^ i
    → error_loop rows i prob rand ret < 2 ^ (i + rows)
unfolding error_loop
error_loop-lt zero i rand prob ret h = subst (λ k. ret < 2 ^ k) (same i) h
  where
    same : (n : ℕ) → n ≡ n + 0
    same n = omega arith
error_loop-lt (suc rows) i rand prob ret h =
    subst (λ k. error_loop rows (i + 1) prob rand (step rand prob i ret) < 2 ^ k) (next i rows)
      (error_loop-lt rows (i + 1) rand prob (step rand prob i ret)
        (subst (λ k. step rand prob i ret < 2 ^ k) (more i) (step-lt rand prob i ret h)))
  where
    next : (n m : ℕ) → n + 1 + m ≡ n + suc m
    next n m = omega arith

    more : (n : ℕ) → suc n ≡ n + 1
    more n = omega arith

-- `make_bit_error` sets, of the 11 bits, exactly those for which the random number modulo 100 is
-- below `prob`, and no bit above them.
pub make_bit_error-bits :
    (rand : ℕ → ℕ) (prob : ℕ)
    → ((k : ℕ) → k < 11 → test_bit (make_bit_error rand prob) k ≡ hit rand prob k)
      × (make_bit_error rand prob < 2 ^ 11)
unfolding make_bit_error
make_bit_error-bits rand prob = (
  λ k h.
      subst (λ n. test_bit (error_loop 11 0 prob rand 0) n ≡ hit rand prob n) (start k)
        (error_loop-hit 11 0 rand prob 0 k (omega arith) h),
  error_loop-lt 11 0 rand prob 0 (omega arith),
)
  where
    start : (n : ℕ) → 0 + n ≡ n
    start n = omega arith
