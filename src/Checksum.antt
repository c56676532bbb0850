-- ===== src/Checksum.antt =====
-- MP3/checksum/checksum.cpp: the checksum of the numbers of one line.
pub mod Ones
pub mod Line
pub mod Examples
use comnet.Base.{ℕ, ◌+◌, ◌-◌, ◌/◌, ◌%◌, ◌^◌, true, false, List, [], ◌∷◌, ◌++◌, map, ◌==◌, u16}
use comnet.Base.Int.{ℤ, pos, negsuc}
use comnet.Base.Decimal.{atoi}

-- `split`: `getline` takes the bytes up to the delimiter; nothing follows a delimiter at the end.
pub split_from : ℕ → List ℕ → List ℕ → List (List ℕ)
split_from delim [] [] = []
split_from delim (x ∷ item) [] = (x ∷ item) ∷ []
split_from delim item (c ∷ cs) = elim (c == delim) [
  | true ↦ item ∷ split_from delim [] cs
  | false ↦ split_from delim (item ++ c ∷ []) cs
]

pub split : List ℕ → ℕ → List (List ℕ)
split s delim = split_from delim [] s

-- `(unsigned short)` of an `int`.
pub to_u16 : ℤ → ℕ
to_u16 (pos n) = u16 n
to_u16 (negsuc n) = 2 ^ 16 - 1 - u16 n

-- `sum += …` over the words, in an `unsigned long`.
pub sum_words : ℕ → List ℕ → ℕ
sum_words sum [] = sum
sum_words sum (w ∷ ws) = sum_words ((sum + w) % 2 ^ 64) ws

-- `(sum & 0xffff) + (sum >> 16)`.
pub fold_sum : ℕ → ℕ
fold_sum sum = sum % 2 ^ 16 + sum / 2 ^ 16

-- `(unsigned short) ~sum`.
pub complement : ℕ → ℕ
complement sum = 2 ^ 16 - 1 - u16 sum

pub checksum : List ℕ → ℕ
checksum ws = complement (fold_sum (sum_words 0 ws))

-- `main` on the line that it reads.
pub checksum_line : List ℕ → ℕ
checksum_line input = checksum (map (λ item. to_u16 (atoi item)) (split input b' '))
