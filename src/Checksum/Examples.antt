-- ===== src/Checksum/Examples.antt =====
-- The checksum at a few words.
use comnet.Base.{ℕ, ◌+◌, ◌-◌, ◌/◌, ◌^◌, ◌≡◌, List, [], ◌∷◌, ◌++◌, arith}
use comnet.Checksum.{checksum, checksum_line, fold_sum, sum_words}
use comnet.Checksum.Ones.{ones_sum, Words, checksum-ones_sum, verify-checksum}
use comnet.Base.Join.{written}
use comnet.Checksum.Line.{checksum_line-join}

abbrev words : List ℕ
words = 65535 ∷ 2 ∷ 40000 ∷ []

words-Words : Words words
words-Words = (omega arith, (omega arith, (omega arith, tt)))

checksum-ones_sum_example :
    checksum words ≡ 65535 - ones_sum 0 words + fold_sum (sum_words 0 words) / 2 ^ 16
checksum-ones_sum_example = checksum-ones_sum words words-Words (omega arith)

verify-checksum_example : ones_sum 0 (words ++ checksum words ∷ []) ≡ 65535
verify-checksum_example =
    verify-checksum words words-Words (omega arith) (unfold fold_sum sum_words in omega arith)

checksum_line-join_example : checksum_line (written words) ≡ checksum words
checksum_line-join_example = checksum_line-join words words-Words
