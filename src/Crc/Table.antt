-- ===== src/Crc/Table.antt =====
-- The lookup table of `generate_crc`.
use comnet.Base.{ℕ, zero, suc, ◌+◌, ◌^◌, ◌<◌, ◌≡◌, ap, ◌∙◌, some, arith, get_elem?}
use comnet.Crc.{generate_crc, table_from, generate_table}

table_from-row :
    (rows i k g : ℕ)
    → k < rows
    → get_elem? (table_from rows i g) k ≡ some (generate_crc g 16 (i + k))
unfolding table_from
table_from-row zero i k g h = absurd (omega arith)
table_from-row (suc rows) i zero g h = ap (λ n. some (generate_crc g 16 n)) at_first
  where
    at_first : i ≡ i + 0
    at_first = omega arith
table_from-row (suc rows) i (suc k) g h =
    table_from-row rows (i + 1) k g (omega arith) ∙ ap (λ n. some (generate_crc g 16 n)) next
  where
    next : i + 1 + k ≡ i + suc k
    next = omega arith

-- For data of 16 bits, a lookup in the table finds what `generate_crc` computes.
pub generate_table-generate_crc :
    (g value : ℕ)
    → value < 2 ^ 16
    → get_elem? (generate_table g) value ≡ some (generate_crc g 16 value)
unfolding generate_table
generate_table-generate_crc g value h =
    table_from-row (2 ^ 16) 0 value g h ∙ ap (λ n. some (generate_crc g 16 n)) (start value)
  where
    start : (n : ℕ) → 0 + n ≡ n
    start n = omega arith
