-- ===== src/Crc/Examples.antt =====
-- The generator 1011 of the exercise at data of four bits.
use Prim.Native.Nat.{bit_xor}
use comnet.Base.{some, ℕ, ◌*◌, ◌^◌, ◌<◌, ◌≡◌, ◌↔◌, refl, arith}
use comnet.Base.{zero, suc, ◌≤◌, ◌≢◌, ap, false, List, [], ◌∷◌, replicate, length, take, ◌==◌}
use comnet.Base.Int.{ℤ, pos}
use comnet.Base.Decimal.{atoi, read_signed, skip_space, read_digits}
use comnet.Crc.{make_bit_error, error_loop}
use comnet.Crc.Single.{single_error-seen}
use comnet.Crc.Main.{
  to_short, int_to_short, lookup_length, Random, result, results, get_random, measures, counted,
  crc_main,
}
use comnet.Crc.Counts.{nonzero, seen, drawn, crc_main-measures}
use comnet.Crc.{crc_loop, generate_crc}
use comnet.Crc.Division.{
  poly_mul, generate_crc-divides, generate_crc_unique, error-detected, crc_loop-eq-zero_iff,
}

abbrev eleven : ℕ
eleven = 11

-- The quotient of 1101000 by 1011: 1111, with 001 left.
abbrev all_ones : ℕ → ℕ
all_ones k = 1

generate_crc-divides_example :
    (q : ℕ → ℕ) × (r : ℕ) × (generate_crc eleven 4 13 ≡ some r)
    × (13 * 2 ^ 3 ≡ bit_xor (poly_mul 4 q eleven) r)
    × (r < 8)
generate_crc-divides_example =
    generate_crc-divides eleven 4 13 (omega arith) (omega arith) (omega arith) (omega arith)

generate_crc_unique_example : generate_crc eleven 4 13 ≡ some 1
generate_crc_unique_example =
    generate_crc_unique eleven 4 13 all_ones 1 (omega arith) (omega arith) (omega arith)
      (omega arith) (omega arith) (unfold poly_mul in refl)

error-detected_example :
    (r : ℕ) × (left : ℕ) × (generate_crc eleven 4 13 ≡ some r)
    × (crc_loop 4 eleven 16 ≡ some left)
    × (crc_loop 4 eleven (bit_xor (bit_xor (13 * 2 ^ 3) r) 16) ≡ some left)
error-detected_example =
    error-detected eleven 4 13 16 (omega arith) (omega arith) (omega arith) (omega arith)
      (omega arith)

crc_loop-eq-zero_iff_example :
    (crc_loop 4 eleven 22 ≡ some 0) ↔ ((q : ℕ → ℕ) × (22 ≡ poly_mul 4 q eleven))
crc_loop-eq-zero_iff_example =
    crc_loop-eq-zero_iff 4 eleven 22 (omega arith) (omega arith) (omega arith) (omega arith)

-- Random numbers that hit every bit.
abbrev zeros : ℕ → ℕ
zeros k = 0

single_error-seen_example :
    (r : ℕ) × (left : ℕ) × (generate_crc 9 11 13 ≡ some r)
    × (crc_loop 11 9 (bit_xor (bit_xor (13 * 2 ^ 3) r) (2 ^ 5)) ≡ some left)
    × (left ≢ 0)
single_error-seen_example = single_error-seen 13 5 (omega arith) (omega arith)

drawn-replicate :
    (prob n : ℕ)
    → (make_bit_error zeros prob == 0) ≡ false
    → length (drawn prob (replicate n zeros)) ≡ n
unfolding nonzero
drawn-replicate prob zero h = refl
drawn-replicate prob (suc n) h = rw h (ap suc (drawn-replicate prob n h))

abbrev always : List (ℕ → ℕ)
always = replicate lookup_length zeros

enough :
    (prob : ℕ)
    → (make_bit_error zeros prob == 0) ≡ false
    → lookup_length ≤ length (drawn prob always)
enough prob h = omega (arith, drawn-replicate prob lookup_length h)

all_hit :
    ((make_bit_error zeros 10 == 0) ≡ false)
    × ((make_bit_error zeros 20 == 0) ≡ false)
    × ((make_bit_error zeros 30 == 0) ≡ false)
unfolding make_bit_error error_loop
all_hit = (refl, refl, refl)

abbrev draws : Random
draws = record { lookups = zeros; error = zeros; ten = always; twenty = always; thirty = always }

nine : int_to_short (atoi (b'9' ∷ [])) ≡ pos 9
unfolding int_to_short to_short atoi read_signed skip_space read_digits
nine = refl

crc_main-measures_example :
    (crc_main draws ((b'9' ∷ []) ∷ [])
      ≡ measures
          (results 9 (get_random zeros))
          (results 9 (get_random zeros))
          (make_bit_error zeros 10)
          (counted (seen (take lookup_length (drawn 10 always))))
          (counted (seen (take lookup_length (drawn 20 always))))
          (counted (seen (take lookup_length (drawn 30 always)))))
    × ((n : ℕ) → n < 2 ^ 15 → (c : ℤ) × (result 9 (pos n) ≡ some c))
    × ((rand : ℕ → ℕ) (prob : ℕ)
        → (c : ℕ) × (generate_crc 9 11 (make_bit_error rand prob) ≡ some c))
crc_main-measures_example =
    crc_main-measures draws (b'9' ∷ []) 9 nine (enough 10 all_hit.0) (enough 20 all_hit.1)
      (enough 30 all_hit.2)
