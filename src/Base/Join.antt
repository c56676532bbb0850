-- ===== src/Base/Join.antt =====
-- Items on one line, with a delimiter between them, and numbers written in decimal that way.
use comnet.Base.{
  Bool, true, not, ◌&&◌, Bool-cases, inl, inr, ℕ, ◌≡◌, ◌≢◌, refl, sym, ap, ◌∙◌, false, List, [],
  ◌∷◌, ◌++◌, map, append-nil, arith, ◌==◌, c_string, if_false, take, zero, suc,
}
use comnet.Base.Int.{pos}
use comnet.Base.Decimal.{
  atoi, to_string, atoi-to_string, AllDigits, is_digit, to_string-AllDigits, to_string-ne-nil,
}

unfoldable pub join_rest : ℕ → List (List ℕ) → List ℕ
join_rest d [] = []
join_rest d (x ∷ xs) = d ∷ x ++ join_rest d xs

unfoldable pub join : ℕ → List (List ℕ) → List ℕ
join d [] = []
join d (x ∷ xs) = x ++ join_rest d xs

abbrev pub Lacks : ℕ → List ℕ → Type 0
Lacks d [] = Unit {0}
Lacks d (c ∷ cs) = ((c == d) ≡ false) × Lacks d cs

-- The test, which computes on a given text.
abbrev pub lacks : ℕ → List ℕ → Bool
lacks d [] = true
lacks d (c ∷ cs) = not (c == d) && lacks d cs

pub lacks-Lacks : (d : ℕ) (cs : List ℕ) → lacks d cs ≡ true → Lacks d cs
lacks-Lacks d [] h = tt
lacks-Lacks d (c ∷ cs) h = elim (Bool-cases (c == d)) [
  | inl hit ↦ absurd (clash (ap (λ b. not b && lacks d cs) hit) h)
  | inr miss ↦ (miss, lacks-Lacks d cs (sym (ap (λ b. not b && lacks d cs) miss) ∙ h))
]
  where
    clash : {b : Bool} → b ≡ false → b ≡ true → ⊥
    clash e e' = cc

-- Items that can be told apart on their line: without the delimiter, and not empty.
abbrev pub Items : ℕ → List (List ℕ) → Type 0
Items d [] = Unit {0}
Items d (x ∷ xs) = Lacks d x × (x ≢ []) × Items d xs

-- Numbers in decimal, one blank between any two.
abbrev pub written : List ℕ → List ℕ
written ws = join b' ' (map to_string ws)

digits-Lacks : (d : ℕ) (cs : List ℕ) → is_digit d ≡ false → AllDigits cs → Lacks d cs
digits-Lacks d [] e h = tt
digits-Lacks d (c ∷ cs) e h = (ground arith, digits-Lacks d cs e h.1)

pub shown-Items : (ws : List ℕ) → Items b' ' (map to_string ws)
shown-Items [] = tt
shown-Items (w ∷ ws) = (
  digits-Lacks b' ' (to_string w) refl (to_string-AllDigits w),
  to_string-ne-nil w,
  shown-Items ws,
)

pub atoi-shown : (w : ℕ) → atoi (to_string w) ≡ pos w
atoi-shown w = ap atoi (sym (append-nil (to_string w))) ∙ atoi-to_string w [] tt

pub Lacks-append : (d : ℕ) (xs ys : List ℕ) → Lacks d xs → Lacks d ys → Lacks d (xs ++ ys)
Lacks-append d [] ys h k = k
Lacks-append d (c ∷ cs) ys h k = (h.0, Lacks-append d cs ys h.1 k)

pub Lacks-shown : (d w : ℕ) → is_digit d ≡ false → Lacks d (to_string w)
Lacks-shown d w e = digits-Lacks d (to_string w) e (to_string-AllDigits w)

Lacks-rest :
    (d : ℕ) (ws : List ℕ)
    → is_digit d ≡ false
    → (b' ' == d) ≡ false
    → Lacks d (join_rest b' ' (map to_string ws))
unfolding join_rest
Lacks-rest d [] e blank = tt
Lacks-rest d (w ∷ ws) e blank =
    (blank, Lacks-append d (to_string w) _ (Lacks-shown d w e) (Lacks-rest d ws e blank))

-- A byte that is neither a digit nor the blank is not written.
pub Lacks-written :
    (d : ℕ) (ws : List ℕ) → is_digit d ≡ false → (b' ' == d) ≡ false → Lacks d (written ws)
unfolding join
Lacks-written d [] e blank = tt
Lacks-written d (w ∷ ws) e blank =
    Lacks-append d (to_string w) _ (Lacks-shown d w e) (Lacks-rest d ws e blank)

pub c_string-Lacks : (xs : List ℕ) → Lacks 0 xs → c_string xs ≡ xs
unfolding c_string
c_string-Lacks [] h = refl
c_string-Lacks (c ∷ cs) h = if_false _ _ _ h.0 ∙ ap (λ t. c ∷ t) (c_string-Lacks cs h.1)

pub Lacks-take : (d n : ℕ) (xs : List ℕ) → Lacks d xs → Lacks d (take n xs)
Lacks-take d zero xs h = tt
Lacks-take d (suc n) [] h = tt
Lacks-take d (suc n) (c ∷ cs) h = (h.0, Lacks-take d n cs h.1)
