-- ===== src/Crc/Counts.antt =====
-- What the measurements of `main` come to.
use mathlib.Core.Option
use comnet.Base.{
  Option, some, ◌-◌, ℕ, zero, suc, ◌+◌, ◌%◌, ◌^◌, ◌≤◌, ◌<◌, ◌≡◌, refl, sym, ap, ap₂, ◌∙◌, subst,
  arith, Bool, true, false, List, [], ◌∷◌, map, ltb, ◌==◌, if◌then◌else◌, if_true, if_false, length,
  take, Bool-cases, inl, inr,
}
use comnet.Base.Int.{ℤ, pos, negsuc}
use comnet.Base.Decimal.{atoi}
use comnet.Crc.Fits.{generate_crc-reduce, generate_crc-short}
use comnet.Crc.Errors.{make_bit_error-bits}
use comnet.Crc.{generate_crc, generate_table, make_bit_error}
use comnet.Crc.Table.{generate_table-generate_crc}
use comnet.Crc.Main.{
  lookup_length, to_short, int_to_short, random_from, get_random, result, row, table_result,
  leaves_nothing, collect, results, table_results, counted, count_detected, measure, Random,
  measures, compare_times, crc_main,
}

-- A lookup of 16 bits, as a `short`.
abbrev pub IsShort : ℤ → Type 0
IsShort (pos n) = n < 2 ^ 15
IsShort (negsuc n) = n < 2 ^ 15

abbrev pub AreShort : List ℤ → Type 0
AreShort [] = Unit {0}
AreShort (l ∷ ls) = IsShort l × AreShort ls

result-table_result : (g : ℕ) (l : ℤ) → IsShort l → result g l ≡ table_result (generate_table g) l
unfolding result table_result row
result-table_result g (pos n) h = sym (
    ap (λ (t : Option (Option ℕ)). Option.map to_short (row t))
      (generate_table-generate_crc g n (omega arith)))
result-table_result g (negsuc n) h = refl

results-table_results :
    (g : ℕ) (ls : List ℤ) → AreShort ls → results g ls ≡ table_results (generate_table g) ls
unfolding results table_results
results-table_results g [] h = refl
results-table_results g (l ∷ ls) h =
    ap₂ collect (result-table_result g l h.0) (results-table_results g ls h.1)

to_short-IsShort : (n : ℕ) → IsShort (to_short n)
unfolding to_short
to_short-IsShort n = elim (Bool-cases (ltb (n % 2 ^ 16) (2 ^ 15))) [
  | inl low ↦ subst IsShort (sym (if_true _ _ _ low)) (ground arith)
  | inr high ↦ subst IsShort (sym (if_false _ _ _ high)) (ground arith)
]

random_from-AreShort : (rows i : ℕ) (rand : ℕ → ℕ) → AreShort (random_from rows i rand)
unfolding random_from
random_from-AreShort zero i rand = tt
random_from-AreShort (suc rows) i rand =
    (to_short-IsShort (rand i % 2 ^ 16), random_from-AreShort rows (i + 1) rand)

int_to_short-IsShort : (z : ℤ) → IsShort (int_to_short z)
unfolding int_to_short
int_to_short-IsShort (pos n) = to_short-IsShort n
int_to_short-IsShort (negsuc n) = to_short-IsShort (2 ^ 16 - 1 - n % 2 ^ 16)

-- Data that are not negative as a `short` have a result.
result-some : (g : ℕ) → g < 2 ^ 15 → (n : ℕ) → n < 2 ^ 15 → (c : ℤ) × (result g (pos n) ≡ some c)
unfolding result
result-some g short n h = (_, ap (Option.map to_short) (generate_crc-short g n short (omega arith)))

-- The two timed loops do the same: whatever random lookups `get_random` makes, the results that are
-- computed are those of the table, and both are undefined where a lookup is negative.
pub results-get_random :
    (g : ℕ) (rand : ℕ → ℕ)
    → results g (get_random rand) ≡ table_results (generate_table g) (get_random rand)
unfolding get_random
results-get_random g rand = results-table_results g _ (random_from-AreShort lookup_length 0 rand)

-- The errors with a bit.
unfoldable pub nonzero : List ℕ → List ℕ
nonzero [] = []
nonzero (e ∷ es) = let rest = nonzero es in if e == 0 then rest else e ∷ rest

-- How many of them the check sees.
unfoldable pub seen : List ℕ → ℕ
seen [] = 0
seen (e ∷ es) = (if leaves_nothing e then 0 else 1) + seen es

count_detected_lem :
    (left count : ℕ) (draws : List ℕ)
    → left ≤ length (nonzero draws)
    → count_detected left count draws ≡ counted (count + seen (take left (nonzero draws)))
unfolding count_detected nonzero seen
count_detected_lem zero count draws h = ap counted (start count)
  where
    start : (n : ℕ) → n ≡ n + 0
    start n = omega arith
count_detected_lem (suc left) count [] h = absurd (omega arith)
count_detected_lem (suc left) count (e ∷ draws) h = elim (Bool-cases (e == 0)) [
  | inl none_hit ↦
      let more : suc left ≤ length (nonzero draws) = ground arith in
      rw (count_detected, nonzero, none_hit) (count_detected_lem (suc left) count draws more)
  | inr some_hit ↦
      let more : left ≤ length (nonzero draws) = ground arith in
      rw (count_detected, nonzero, some_hit)
        (count_detected_lem left _ draws more
          ∙ ap counted (added (leaves_nothing e) count (seen (take left (nonzero draws)))))
]
  where
    added :
        (missed : Bool) (c m : ℕ)
        → (if missed then c else c + 1) + m ≡ c + ((if missed then 0 else 1) + m)
    added true c m = omega arith
    added false c m = omega arith

-- Once `rand` has brought enough errors with a bit, the loop of `main` ends, and it has counted, of
-- the first 8192 of them, those for which the CRC with the generator 1001 is not zero.
pub measure-seen :
    (prob : ℕ) (rands : List (ℕ → ℕ))
    → lookup_length ≤ length (nonzero (map (λ rand. make_bit_error rand prob) rands))
    → measure prob rands
      ≡ counted (seen (take lookup_length (nonzero (map (λ rand. make_bit_error rand prob) rands))))
unfolding measure
measure-seen prob rands h =
    count_detected_lem lookup_length 0 (map (λ rand. make_bit_error rand prob) rands) h
    ∙ ap counted (same _)
  where
    same : (n : ℕ) → 0 + n ≡ n
    same n = omega arith

-- The errors with a bit that random numbers make.
abbrev pub drawn : ℕ → List (ℕ → ℕ) → List ℕ
drawn prob rands = nonzero (map (λ rand. make_bit_error rand prob) rands)

-- With one argument, a number that is not negative as a `short`, and enough random numbers, `main`
-- ends; the table gives for the random lookups just what computing gives (both undefined where a
-- lookup is negative, and only there), and each count is that of the first 8192 errors with a bit
-- whose CRC with the generator 1001, which is defined for every error, is not zero.
pub crc_main-measures :
    (r : Random) (arg : List ℕ) (g : ℕ)
    → int_to_short (atoi arg) ≡ pos g
    → lookup_length ≤ length (drawn 10 r.ten)
    → lookup_length ≤ length (drawn 20 r.twenty)
    → lookup_length ≤ length (drawn 30 r.thirty)
    → (crc_main r (arg ∷ [])
        ≡ measures
            (results g (get_random r.lookups))
            (results g (get_random r.lookups))
            (make_bit_error r.error 10)
            (counted (seen (take lookup_length (drawn 10 r.ten))))
            (counted (seen (take lookup_length (drawn 20 r.twenty))))
            (counted (seen (take lookup_length (drawn 30 r.thirty)))))
      × ((n : ℕ) → n < 2 ^ 15 → (c : ℤ) × (result g (pos n) ≡ some c))
      × ((rand : ℕ → ℕ) (prob : ℕ)
          → (c : ℕ) × (generate_crc 9 11 (make_bit_error rand prob) ≡ some c))
unfolding crc_main compare_times
crc_main-measures r arg g e ten twenty thirty = (
  ap (compare_times r) e ∙ λ i.
      measures (results g (get_random r.lookups)) (sym (results-get_random g r.lookups) i)
        (make_bit_error r.error 10) (measure-seen 10 r.ten ten i)
        (measure-seen 20 r.twenty twenty i) (measure-seen 30 r.thirty thirty i),
  result-some g (subst IsShort e (int_to_short-IsShort (atoi arg))),
  λ rand prob.
      (_, generate_crc-reduce 9 11 _ (omega arith) (omega arith) (make_bit_error-bits rand prob).1),
)
