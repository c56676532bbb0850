-- ===== src/Crc/Main.antt =====
-- MP3/crc/crc.cpp: `get_random` and `main`, without the clocks and the output. Random numbers are
-- what `rand` returns.
use mathlib.Core.Option
use comnet.Base.{
  Bool, false, ℕ, zero, suc, ◌+◌, ◌-◌, ◌%◌, ◌^◌, List, [], ◌∷◌, Option, none, some, map, ltb, ◌==◌,
  if◌then◌else◌, get_elem?,
}
use comnet.Base.Int.{ℤ, pos, negsuc, pos_part}
use comnet.Base.Decimal.{atoi}
use comnet.Crc.{generate_crc, generate_table, make_bit_error}

abbrev pub lookup_length : ℕ
lookup_length = 8192

-- A value stored in a `short`.
unfoldable pub to_short : ℕ → ℤ
to_short n =
    if ltb (n % 2 ^ 16) (2 ^ 15) then pos (n % 2 ^ 16) else negsuc (2 ^ 16 - 1 - n % 2 ^ 16)

-- An `int` passed as a `short`.
unfoldable pub int_to_short : ℤ → ℤ
int_to_short (pos n) = to_short n
int_to_short (negsuc n) = to_short (2 ^ 16 - 1 - n % 2 ^ 16)

-- The lookups from `i` on.
unfoldable pub random_from : ℕ → ℕ → (ℕ → ℕ) → List ℤ
random_from zero i rand = []
random_from (suc rows) i rand = to_short (rand i % 2 ^ 16) ∷ random_from rows (i + 1) rand

unfoldable pub get_random : (ℕ → ℕ) → List ℤ
get_random rand = random_from lookup_length 0 rand

-- C++ leaves undefined the shift of negative data, and a row of the table at a negative index.
unfoldable pub result : ℕ → ℤ → Option ℤ
result generator (pos n) = Option.map to_short (generate_crc generator 16 n)
result generator (negsuc n) = none

-- A row as it is read: there is none past the table, and none where its shifts were undefined.
unfoldable pub row : Option (Option ℕ) → Option ℕ
row none = none
row (some r) = r

unfoldable pub table_result : List (Option ℕ) → ℤ → Option ℤ
table_result table (pos n) = Option.map to_short (row (get_elem? table n))
table_result table (negsuc n) = none

-- The loops over the lookups, up to the first for which there is no result.
unfoldable pub collect : Option ℤ → Option (List ℤ) → Option (List ℤ)
collect none rest = none
collect (some x) none = none
collect (some x) (some xs) = some (x ∷ xs)

unfoldable pub results : ℕ → List ℤ → Option (List ℤ)
results generator [] = some []
results generator (l ∷ ls) = collect (result generator l) (results generator ls)

unfoldable pub table_results : List (Option ℕ) → List ℤ → Option (List ℤ)
table_results table [] = some []
table_results table (l ∷ ls) = collect (table_result table l) (table_results table ls)

-- A loop over errors, after a list of results of `make_bit_error`: `count`, or its value so far.
pub data Counted : Type 0 where
  counting : ℕ → Counted
  counted : ℕ → Counted

-- Whether `generate_crc(9, 11, temp)` is 0.
unfoldable pub leaves_nothing : ℕ → Bool
leaves_nothing e = elim (generate_crc 9 11 e) [ none ↦ false | some c ↦ c == 0 ]

-- `left` more errors are to be tried. One that has no bit is drawn again.
unfoldable pub count_detected : ℕ → ℕ → List ℕ → Counted
count_detected zero count draws = counted count
count_detected (suc left) count [] = counting count
count_detected (suc left) count (e ∷ draws) =
    count_detected (if e == 0 then suc left else left)
      (if e == 0 then count else if leaves_nothing e then count else count + 1) draws

unfoldable pub measure : ℕ → List (ℕ → ℕ) → Counted
measure prob rands = count_detected lookup_length 0 (map (λ rand. make_bit_error rand prob) rands)

-- The random numbers of a run: for the lookups, the error that is printed, and the errors of each
-- count.
pub record Random : Type 0 where
  pub lookups : ℕ → ℕ
  pub error : ℕ → ℕ
  pub ten : List (ℕ → ℕ)
  pub twenty : List (ℕ → ℕ)
  pub thirty : List (ℕ → ℕ)

-- What `main` comes to: the usage, the CRC of the arguments, both lists of results (of which it
-- prints the times), one error and three counts, or a shift that C++ leaves undefined.
pub data Output : Type 0 where
  usage : Output
  crc : ℕ → Output
  measures : Option (List ℤ) → Option (List ℤ) → ℕ → Counted → Counted → Counted → Output
  undefined : Output

unfoldable pub outcome : Option ℕ → Output
outcome none = undefined
outcome (some c) = crc c

-- Negative data or, in a round, a negative generator cannot be shifted. With `in_bits` not positive
-- there is no round.
unfoldable pub encode : ℤ → ℤ → ℤ → Output
encode g bits (negsuc value) = undefined
encode (pos g) bits (pos value) = outcome (generate_crc g (pos_part bits) value)
encode (negsuc g) bits (pos value) =
    if pos_part bits == 0 then outcome (generate_crc 0 0 value) else undefined

unfoldable pub compare_times : Random → ℤ → Output
compare_times r (pos g) =
    measures (results g (get_random r.lookups))
      (table_results (generate_table g) (get_random r.lookups)) (make_bit_error r.error 10)
      (measure 10 r.ten) (measure 20 r.twenty) (measure 30 r.thirty)
compare_times r (negsuc g) = undefined

unfoldable pub crc_main : Random → List (List ℕ) → Output
crc_main r (g ∷ []) = compare_times r (int_to_short (atoi g))
crc_main r (g ∷ bits ∷ value ∷ []) = encode (int_to_short (atoi g)) (atoi bits) (atoi value)
crc_main r [] = usage
crc_main r (a ∷ b ∷ []) = usage
crc_main r (a ∷ b ∷ c ∷ d ∷ rest) = usage
