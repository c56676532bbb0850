-- ===== src/Checksum/Line.antt =====
-- The line that `main` reads: numbers with single blanks between them.
use comnet.Base.{
  ℕ, ◌≡◌, ◌≢◌, refl, ap, ap₂, ◌∙◌, false, List, [], ◌∷◌, ◌++◌, map, arith, ◌==◌, append_assoc,
  append-nil,
}
use comnet.Base.Int.{ℤ, pos}
use comnet.Base.Decimal.{atoi, to_string}
use comnet.Base.Join.{join, join_rest, Lacks, Items, written, shown-Items, atoi-shown}
use comnet.Checksum.Ones.{Words}
use comnet.Checksum.{split_from, split, to_u16, checksum, checksum_line}

split_from-other :
    (d c : ℕ) (item cs : List ℕ)
    → (c == d) ≡ false
    → split_from d item (c ∷ cs) ≡ split_from d (item ++ c ∷ []) cs
unfolding split_from
split_from-other d c item cs e = ground arith

split_from-delim :
    (d : ℕ) (item cs : List ℕ) → split_from d item (d ∷ cs) ≡ item ∷ split_from d [] cs
unfolding split_from
split_from-delim d item cs = ground arith

split_from-end : (d : ℕ) (item : List ℕ) → item ≢ [] → split_from d item [] ≡ item ∷ []
unfolding split_from
split_from-end d [] ne = absurd (ne refl)
split_from-end d (c ∷ cs) ne = refl

split_from-item :
    (d : ℕ) (item x rest : List ℕ)
    → Lacks d x
    → split_from d item (x ++ rest) ≡ split_from d (item ++ x) rest
split_from-item d item [] rest h = rw (append-nil item)
split_from-item d item (c ∷ cs) rest h =
    split_from-other d c item (cs ++ rest) h.0
    ∙ split_from-item d (item ++ c ∷ []) cs rest h.1
    ∙ ap (λ t. split_from d t rest) (append_assoc item (c ∷ []) cs)

split_from-rest :
    (d : ℕ) (item : List ℕ) (xs : List (List ℕ))
    → item ≢ []
    → Items d xs
    → split_from d item (join_rest d xs) ≡ item ∷ xs
unfolding join_rest
split_from-rest d item [] ne h = split_from-end d item ne
split_from-rest d item (x ∷ xs) ne h =
    split_from-delim d item (x ++ join_rest d xs)
    ∙ ap (λ t. item ∷ t)
        (split_from-item d [] x (join_rest d xs) h.0 ∙ split_from-rest d x xs h.1 h.2)

-- `split` undoes the joining of items that have no delimiter in them and are not empty.
pub split-join : (d : ℕ) (xs : List (List ℕ)) → Items d xs → split (join d xs) d ≡ xs
unfolding split join split_from
split-join d [] h = refl
split-join d (x ∷ xs) h =
    split_from-item d [] x (join_rest d xs) h.0 ∙ split_from-rest d x xs h.1 h.2

read_back : (ws : List ℕ) → Words ws → map (λ item. to_u16 (atoi item)) (map to_string ws) ≡ ws
unfolding to_u16
read_back [] h = refl
read_back (w ∷ ws) h = ap₂ ◌∷◌ (word (atoi (to_string w)) (atoi-shown w)) (read_back ws h.1)
  where
    word : (z : ℤ) → z ≡ pos w → to_u16 z ≡ w
    word z e = ground (arith, h.0)

-- For words of 16 bits, the program prints their checksum when they stand on its line in decimal,
-- one blank between any two.
pub checksum_line-join : (ws : List ℕ) → Words ws → checksum_line (written ws) ≡ checksum ws
unfolding checksum_line
checksum_line-join ws h =
    ap (λ items. checksum (map (λ item. to_u16 (atoi item)) items))
      (split-join b' ' (map to_string ws) (shown-Items ws))
    ∙ ap checksum (read_back ws h)
