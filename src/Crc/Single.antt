-- ===== src/Crc/Single.antt =====
-- The generator 1001, which the measurements of `main` use, and errors of one bit.
use Prim.Native.Nat.{bit_xor}
use comnet.Base.{
  some, ℕ, zero, suc, ◌*◌, ◌^◌, ◌<◌, ◌≤◌, ◌≡◌, ◌≢◌, refl, sym, ap, ◌∙◌, arith, Bool, true, not,
  ◌&&◌, Bool-cases, inl, inr, ◌==◌,
}
use comnet.Base.Xor.{test_bit}
use comnet.Crc.{crc_loop, generate_crc}
use comnet.Crc.Remainder.{reduce}
use comnet.Crc.Fits.{crc_loop-reduce}
use comnet.Crc.Division.{some_injective, error-detected}
use native.Mathlib.Nat.{pow-le-pow_right}

-- The test for all numbers below a bound.
abbrev all_below : ℕ → (ℕ → Bool) → Bool
all_below zero test = true
all_below (suc n) test = test n && all_below n test

all_below_lem : (n : ℕ) (test : ℕ → Bool) (k : ℕ) → all_below n test ≡ true → k < n → test k ≡ true
all_below_lem zero test k h lt = absurd (omega arith)
all_below_lem (suc n) test k h lt = elim (Bool-cases (k == n)) [
  | inl same ↦
      let at_n : k ≡ n = ground arith in ap test at_n ∙ (both (test n) (all_below n test) h).0
  | inr below ↦ all_below_lem n test k (both (test n) (all_below n test) h).1 (ground arith)
]
  where
    both : (a b : Bool) → (a && b) ≡ true → (a ≡ true) × (b ≡ true)
    both a b e = (ground arith, ground arith)

abbrev seen : ℕ → Bool
seen k = not (reduce 11 9 (2 ^ k) == 0)

all_seen : all_below 14 seen ≡ true
unfolding reduce test_bit
all_seen = refl

-- With the generator 1001 and data of 11 bits, an error of one bit anywhere in a codeword, data or
-- check bits, is seen: the loop ends and leaves something.
pub single_error-seen :
    (value k : ℕ)
    → value < 2 ^ 11
    → k < 14
    → (r : ℕ) × (left : ℕ) × (generate_crc 9 11 value ≡ some r)
      × (crc_loop 11 9 (bit_xor (bit_xor (value * 2 ^ 3) r) (2 ^ k)) ≡ some left)
      × (left ≢ 0)
single_error-seen value k small lt =
    let (r, left, e, alone, f) =
      error-detected 9 11 value (2 ^ k) (omega arith) (omega arith) (omega arith) small word in
    (r, left, e, f, λ z. clash (same alone ∙ z) (all_below_lem 14 seen k all_seen lt))
  where
    word : 2 ^ k < 2 ^ 63
    word =
        let below : k ≤ 14 = omega arith in
        let h : 2 ^ k ≤ 2 ^ 14 = pow-le-pow_right (omega arith) below in omega (arith, h)

    same : {left : ℕ} → crc_loop 11 9 (2 ^ k) ≡ some left → reduce 11 9 (2 ^ k) ≡ left
    same h = some_injective (sym (crc_loop-reduce 11 9 (2 ^ k) (omega arith) (omega arith)) ∙ h)

    clash : reduce 11 9 (2 ^ k) ≡ 0 → seen k ≡ true → ⊥
    clash z h = absurd (ground (arith, z))
