-- ===== src/Crc.antt =====
-- MP3/crc/crc.cpp: the cyclic redundancy check with a generator of four bits.
-- A word is a `long` that is not negative.
pub mod Division
pub mod Remainder
pub mod Fits
pub mod Table
pub mod Errors
pub mod Main
pub mod Counts
pub mod Single
pub mod Examples
use Prim.Native.Nat.{bit_xor, bit_or}
use comnet.Base.Xor.{test_bit}
use comnet.Base.{
  Option, none, some, Bool, ◌&&◌, ℕ, zero, suc, ◌+◌, ◌*◌, ◌%◌, ◌^◌, List, [], ◌∷◌, ◌==◌, ltb,
  if◌then◌else◌,
}

-- One round of the loop, for `i` at `rounds + 4`, where GENERATOR_LENGTH is 4: bit `i-1` is tested,
-- and the generator is shifted by `i - 4`.
abbrev pub one_round : ℕ → ℕ → ℕ → ℕ
one_round rounds generator crc =
    if test_bit crc (rounds + 3) == 0 then crc else bit_xor crc (generator * 2 ^ rounds)

-- Both shifts of that round are made in an `int`.
pub shifts_fit : ℕ → ℕ → Bool
shifts_fit rounds generator =
    ltb (generator * 2 ^ rounds) (2 ^ 31) && ltb (2 ^ (rounds + 3)) (2 ^ 31)

-- The loop, with `i` from `rounds + 3` down to 4; `none` is a shift that leaves the `int`, which C++
-- leaves undefined.
pub crc_loop : ℕ → ℕ → ℕ → Option ℕ
crc_loop zero generator crc = some crc
crc_loop (suc rounds) generator crc =
    let rest = crc_loop rounds generator (one_round rounds generator crc) in
    if shifts_fit rounds generator then rest else none

-- `none` also where `data << 3` leaves the `long`.
pub generate_crc : ℕ → ℕ → ℕ → Option ℕ
generate_crc generator in_bits value =
    if ltb (value * 2 ^ 3) (2 ^ 63) then crc_loop in_bits generator (value * 2 ^ 3) else none

-- The rows of `table` from `i` on.
pub table_from : ℕ → ℕ → ℕ → List (Option ℕ)
table_from zero i generator = []
table_from (suc rows) i generator = generate_crc generator 16 i ∷ table_from rows (i + 1) generator

pub generate_table : ℕ → List (Option ℕ)
generate_table generator = table_from (2 ^ 16) 0 generator

-- `make_bit_error`: the loop over 11 bits, with what `rand` returns for each of them.
pub error_loop : ℕ → ℕ → ℕ → (ℕ → ℕ) → ℕ → ℕ
error_loop zero i prob rand ret = ret
error_loop (suc rounds) i prob rand ret =
    error_loop rounds (i + 1) prob rand
      (if ltb (rand i % 100) prob then bit_or ret (2 ^ i) else ret)

pub make_bit_error : (ℕ → ℕ) → ℕ → ℕ
make_bit_error rand prob = error_loop 11 0 prob rand 0
