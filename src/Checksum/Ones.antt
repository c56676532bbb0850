-- ===== src/Checksum/Ones.antt =====
-- The checksum against sums in ones' complement.
use comnet.Base.{
  ℕ, ◌+◌, ◌-◌, ◌*◌, ◌/◌, ◌%◌, ◌^◌, ◌≤◌, ◌<◌, ◌≡◌, refl, ap, ◌∙◌, List, [], ◌∷◌, ◌++◌, arith, ltb,
  ◌==◌, if◌then◌else◌, length,
}
use comnet.Checksum.{sum_words, fold_sum, complement, checksum}

-- Addition of 16-bit words with the carry brought round.
pub ones_add : ℕ → ℕ → ℕ
ones_add a b = if ltb (a + b) (2 ^ 16) then a + b else a + b - (2 ^ 16 - 1)

pub ones_sum : ℕ → List ℕ → ℕ
ones_sum sum [] = sum
ones_sum sum (w ∷ ws) = ones_sum (ones_add sum w) ws

abbrev pub Words : List ℕ → Type 0
Words [] = Unit {0}
Words (w ∷ ws) = (w < 2 ^ 16) × Words ws

-- What a plain sum is in ones' complement.
abbrev reduced : ℕ → ℕ
reduced n = if n == 0 then 0 else (n - 1) % 65535 + 1

ones_add-reduced : (n w : ℕ) → w < 2 ^ 16 → ones_add (reduced n) w ≡ reduced (n + w)
unfolding ones_add
ones_add-reduced n w h = ground arith

total : ℕ → List ℕ → ℕ
total n [] = n
total n (w ∷ ws) = total (n + w) ws

ones_sum-reduced : (n : ℕ) (ws : List ℕ) → Words ws → ones_sum (reduced n) ws ≡ reduced (total n ws)
unfolding ones_sum total
ones_sum-reduced n [] h = refl
ones_sum-reduced n (w ∷ ws) h =
    ap (λ t. ones_sum t ws) (ones_add-reduced n w h.0) ∙ ones_sum-reduced (n + w) ws h.1

total-le : (n : ℕ) (ws : List ℕ) → Words ws → total n ws ≤ n + length ws * 65535
unfolding total
total-le n [] h = omega arith
total-le n (w ∷ ws) h = omega (arith, total-le (n + w) ws h.1)

-- Below 2 ^ 48 words the sum does not wrap.
sum_words-total :
    (n : ℕ) (ws : List ℕ) → Words ws → n + length ws * 65535 < 2 ^ 64 → sum_words n ws ≡ total n ws
unfolding sum_words total
sum_words-total n [] h small = refl
sum_words-total n (w ∷ ws) h small =
    ap (λ t. sum_words t ws) kept ∙ sum_words-total (n + w) ws h.1 (omega arith)
  where
    kept : (n + w) % 2 ^ 64 ≡ n + w
    kept = omega arith

fold_reduced :
    (n : ℕ) → n < 2 ^ 32 → complement (fold_sum n) ≡ 65535 - reduced n + fold_sum n / 2 ^ 16
unfolding complement fold_sum
fold_reduced n h = ground arith

-- For at most 2 ^ 16 words of 16 bits, the checksum is the complement of the sum in ones' complement
-- plus the carry of the one fold that is made: it is right exactly where that fold has no carry.
pub checksum-ones_sum :
    (ws : List ℕ)
    → Words ws
    → length ws ≤ 2 ^ 16
    → checksum ws ≡ 65535 - ones_sum 0 ws + fold_sum (sum_words 0 ws) / 2 ^ 16
unfolding checksum
checksum-ones_sum ws h few =
    rw
      (
        sum_words-total 0 ws h (omega arith),
        fold_reduced (total 0 ws) (omega (arith, total-le 0 ws h)),
      )
      (omega (arith, ones_sum-reduced 0 ws h))

total-append : (n : ℕ) (ws : List ℕ) (c : ℕ) → total n (ws ++ c ∷ []) ≡ total n ws + c
unfolding total
total-append n [] c = refl
total-append n (w ∷ ws) c = total-append (n + w) ws c

Words-append : (ws : List ℕ) (c : ℕ) → Words ws → c < 2 ^ 16 → Words (ws ++ c ∷ [])
Words-append [] c h k = (k, tt)
Words-append (w ∷ ws) c h k = (h.0, Words-append ws c h.1 k)

checksum-lt : (ws : List ℕ) → checksum ws < 2 ^ 16
unfolding checksum complement
checksum-lt ws = omega arith

-- At most 2 ^ 16 words of 16 bits whose fold has no carry sum to all ones, in ones' complement, with
-- their checksum behind them.
pub verify-checksum :
    (ws : List ℕ)
    → Words ws
    → length ws ≤ 2 ^ 16
    → fold_sum (sum_words 0 ws) < 2 ^ 16
    → ones_sum 0 (ws ++ checksum ws ∷ []) ≡ 65535
verify-checksum ws h few no_carry =
    ones_sum-reduced 0 (ws ++ checksum ws ∷ []) (Words-append ws (checksum ws) h (checksum-lt ws))
    ∙ ap reduced (total-append 0 ws (checksum ws))
    ∙ fills (total 0 ws) (checksum ws)
        (omega (arith, checksum-ones_sum ws h few, ones_sum-reduced 0 ws h))
  where
    fills : (t c : ℕ) → c ≡ 65535 - reduced t → reduced (t + c) ≡ 65535
    fills t c e = ground arith
