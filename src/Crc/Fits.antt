-- ===== src/Crc/Fits.antt =====
-- Where no shift of `generate_crc` leaves its type, and so the loop is that over words without a
-- bound.
use native.Mathlib.Nat.{pow-suc, one-le-pow, pow-le-pow_right}
use comnet.Base.{
  ℕ, zero, suc, ◌+◌, ◌*◌, ◌^◌, ◌≤◌, ◌<◌, ◌≡◌, refl, Bool, ap, ◌∙◌, true, arith, some, ltb, ◌&&◌,
  if_true,
}
use comnet.Crc.{one_round, shifts_fit, crc_loop, generate_crc}
use comnet.Crc.Remainder.{three_more, reduce}

shifts_fit-below : (n g : ℕ) → n < 28 → g * 2 ^ suc n < 2 ^ 32 → shifts_fit n g ≡ true
unfolding shifts_fit
shifts_fit-below n g few small = both first second
  where
    half : g * 2 ^ suc n ≡ 2 * (g * 2 ^ n)
    half = omega (arith, ap (λ (t : ℕ). g * t) (pow-suc 2 n))

    first : ltb (g * 2 ^ n) (2 ^ 31) ≡ true
    first = let k : g * 2 ^ n < 2 ^ 31 = omega (arith, half, small) in ground (arith, k)

    second : ltb (2 ^ (n + 3)) (2 ^ 31) ≡ true
    second =
        let few' : n ≤ 27 = omega arith in
        let k : 2 ^ n ≤ 2 ^ 27 = pow-le-pow_right (omega arith) few' in
        let l : 2 ^ (n + 3) < 2 ^ 31 = omega (arith, k, three_more n) in ground (arith, l)

    both : {a b : Bool} → a ≡ true → b ≡ true → (a && b) ≡ true
    both {a} {b} h k = ground (arith, h, k)

-- The generator need not have four bits.
pub crc_loop-within :
    (n g x : ℕ) → n ≤ 28 → g * 2 ^ n < 2 ^ 32 → crc_loop n g x ≡ some (reduce n g x)
unfolding crc_loop reduce
crc_loop-within zero g x few small = refl
crc_loop-within (suc n) g x few small =
    if_true _ _ _ (shifts_fit-below n g (omega arith) small)
    ∙ crc_loop-within n g (one_round n g x) (omega arith) lower
  where
    lower : g * 2 ^ n < 2 ^ 32
    lower = omega (arith, small, ap (λ (t : ℕ). g * t) (pow-suc 2 n))

pub crc_loop-reduce : (n g x : ℕ) → g < 16 → n ≤ 28 → crc_loop n g x ≡ some (reduce n g x)
crc_loop-reduce n g x hi few =
    crc_loop-within n g x few (below (2 ^ n) top (one-le-pow n 2 (omega arith)))
  where
    top : 2 ^ n ≤ 2 ^ 28
    top = pow-le-pow_right (omega arith) few

    below : (p : ℕ) → p ≤ 2 ^ 28 → 1 ≤ p → g * p < 2 ^ 32
    below p h k = let s : g * p < 16 * p = grind arith in omega (arith, s, h)

pub generate_crc-reduce :
    (g n value : ℕ)
    → g < 16
    → n ≤ 28
    → value < 2 ^ n
    → generate_crc g n value ≡ some (reduce n g (value * 2 ^ 3))
unfolding generate_crc
generate_crc-reduce g n value hi few small =
    if_true _ _ _ fits ∙ crc_loop-reduce n g (value * 2 ^ 3) hi few
  where
    fits : ltb (value * 2 ^ 3) (2 ^ 63) ≡ true
    fits =
        let k : 2 ^ n ≤ 2 ^ 28 = pow-le-pow_right (omega arith) few in
        let l : value * 2 ^ 3 < 2 ^ 63 = omega (arith, k, small) in ground (arith, l)

-- The rows of the table.
pub generate_crc-short :
    (g value : ℕ)
    → g < 2 ^ 15
    → value < 2 ^ 16
    → generate_crc g 16 value ≡ some (reduce 16 g (value * 2 ^ 3))
unfolding generate_crc
generate_crc-short g value short small =
    if_true _ _ _ fits ∙ crc_loop-within 16 g (value * 2 ^ 3) (omega arith) (omega arith)
  where
    fits : ltb (value * 2 ^ 3) (2 ^ 63) ≡ true
    fits = ground arith
