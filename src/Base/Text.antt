-- ===== src/Base/Text.antt =====
-- Bytes with no NUL among them.
use comnet.Base.{
  ℕ, zero, suc, ◌+◌, ◌≤◌, ◌≡◌, refl, ap, ◌∙◌, List, [], ◌∷◌, ◌++◌, arith, length, take, drop,
  take_all, NonZero, c_string, resize, resize-c_string,
}

pub NonZero-take : (n : ℕ) (xs : List ℕ) → NonZero xs → NonZero (take n xs)
NonZero-take zero xs h = tt
NonZero-take (suc n) [] h = tt
NonZero-take (suc n) (x ∷ xs) h = (h.0, NonZero-take n xs h.1)

pub NonZero-drop : (n : ℕ) (xs : List ℕ) → NonZero xs → NonZero (drop n xs)
NonZero-drop zero xs h = h
NonZero-drop (suc n) [] h = tt
NonZero-drop (suc n) (x ∷ xs) h = NonZero-drop n xs h.1

-- `strlen` runs on behind bytes that are not NUL.
pub length-c_string-append :
    (xs rest : List ℕ)
    → NonZero xs
    → length (c_string (xs ++ rest)) ≡ length xs + length (c_string rest)
unfolding c_string
length-c_string-append [] rest h = omega arith
length-c_string-append (x ∷ xs) rest h = ground (arith, length-c_string-append xs rest h.1)

pub take-resize : (n m : ℕ) (xs : List ℕ) → n ≤ m → take n (resize m xs) ≡ resize n xs
unfolding resize
take-resize zero m xs h = refl
take-resize (suc n) zero xs h = absurd (omega arith)
take-resize (suc n) (suc m) [] h = ap (λ t. 0 ∷ t) (take-resize n m [] (omega arith))
take-resize (suc n) (suc m) (x ∷ xs) h = ap (λ t. x ∷ t) (take-resize n m xs (omega arith))

pub take-append : (xs ys : List ℕ) → take (length xs) (xs ++ ys) ≡ xs
take-append [] ys = refl
take-append (x ∷ xs) ys = ap (λ t. x ∷ t) (take-append xs ys)

pub take-length-take : (n : ℕ) (xs : List ℕ) → take (length (take n xs)) xs ≡ take n xs
take-length-take zero xs = refl
take-length-take (suc n) [] = refl
take-length-take (suc n) (x ∷ xs) = ap (λ t. x ∷ t) (take-length-take n xs)

-- The first bytes of a packet, if they are written as a C string and have no NUL among them.
pub take-resize-c_string :
    (n : ℕ) (xs rest : List ℕ)
    → length xs ≤ n
    → NonZero xs
    → take (length xs) (resize n (c_string (xs ++ rest))) ≡ xs
take-resize-c_string n xs rest h z =
    take-resize (length xs) n (c_string (xs ++ rest)) h
    ∙ resize-c_string (length xs) xs rest (omega arith) (NonZero-take (length xs) xs z)
    ∙ take_all (length xs) xs (omega arith)
