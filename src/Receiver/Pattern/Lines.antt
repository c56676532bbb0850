-- ===== src/Receiver/Pattern/Lines.antt =====
-- The loop that looks for the first line, against its big-step meaning without fuel.
use comnet.Base.{
  ℕ, zero, suc, ◌+◌, ◌<◌, ◌≡◌, refl, List, [], ◌∷◌, Option, none, some, inl, inr, arith, length,
  c_string, Option-cases, ◌⊎◌,
}
use comnet.Receiver.Pattern.{get_line, first_line}

-- What the loop does: a line with bytes in it ends it; an empty one is skipped; a stream that
-- fails at an empty line gives empty lines for ever.
pub data Reads : List ℕ → Option (List ℕ) → Type 0 where
  found :
      {text : List ℕ} (c : ℕ) (cs : List ℕ)
      → c_string (get_line 511 text).0 ≡ c ∷ cs
      → Reads text (some (c ∷ cs))
  ends :
      {text : List ℕ}
      → c_string (get_line 511 text).0 ≡ []
      → (get_line 511 text).1 ≡ none
      → Reads text none
  skips :
      {text : List ℕ} {out : Option (List ℕ)} (left : List ℕ)
      → c_string (get_line 511 text).0 ≡ []
      → (get_line 511 text).1 ≡ some left
      → Reads left out
      → Reads text out

get_line-shorter :
    (n : ℕ) (text left : List ℕ) → (get_line n text).1 ≡ some left → length left < length text
unfolding get_line
get_line-shorter n [] left e = cc
get_line-shorter zero (c ∷ cs) left e = ground arith
get_line-shorter (suc n) (c ∷ cs) left e = ground (arith, get_line-shorter n cs left)

List-cases : (xs : List ℕ) → (xs ≡ []) ⊎ ((c : ℕ) × (cs : List ℕ) × (xs ≡ c ∷ cs))
List-cases [] = inl refl
List-cases (c ∷ cs) = inr (c, cs, refl)

first_line-Reads :
    (fuel : ℕ) (text : List ℕ) → length text < fuel → Reads text (first_line fuel text)
unfolding first_line
first_line-Reads zero text h = absurd (omega arith)
first_line-Reads (suc fuel) text h = elim (List-cases (c_string (get_line 511 text).0)) [
  | inr (c, cs, e) ↦ rw (e, first_line) (found c cs e)
  | inl e ↦ elim (Option-cases (get_line 511 text).1) [
    | inl last ↦ rw (e, first_line, last) (ends e last)
    | inr (left, more) ↦
        rw (e, first_line, more)
          (skips left e more
            (first_line-Reads fuel left (omega (arith, get_line-shorter 511 text left more))))
  ]
]

-- As many rounds as the file has bytes, and one, are enough: the line that is found, or that none
-- ever is, is what the loop comes to.
pub first_line-Reads_all : (text : List ℕ) → Reads text (first_line (length text + 1) text)
first_line-Reads_all text = first_line-Reads (length text + 1) text (omega arith)
