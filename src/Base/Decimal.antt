-- ===== src/Base/Decimal.antt =====
-- `atoi` and `to_string` of the C++ library, over lists of bytes. `atoi` is not bounded here: what
-- it does with a number that no `int` holds is not defined.
use native.Mathlib.Numerals.{add-one}
use comnet.Base.{
  ℕ, zero, suc, ◌+◌, ◌-◌, ◌*◌, ◌/◌, ◌%◌, ◌<◌, ◌≡◌, ◌≢◌, refl, ap, ◌∙◌, Bool, true, false, ◌&&◌,
  ◌||◌, List, [], ◌∷◌, ◌++◌, inl, inr, arith, ltb, leb, ◌==◌, if◌then◌else◌, Bool-cases,
}
use comnet.Base.Int.{ℤ, pos, negsuc}

abbrev pub is_space : ℕ → Bool
is_space c = c == b' ' || (leb 9 c && leb c 13)

abbrev pub is_digit : ℕ → Bool
is_digit c = leb b'0' c && leb c b'9'

unfoldable pub read_digits : ℕ → List ℕ → ℕ
read_digits acc [] = acc
read_digits acc (c ∷ cs) = elim (is_digit c) [
  | true ↦ read_digits (acc * 10 + (c - b'0')) cs
  | false ↦ acc
]

unfoldable pub skip_space : List ℕ → List ℕ
skip_space [] = []
skip_space (c ∷ cs) = if is_space c then skip_space cs else c ∷ cs

abbrev pub negate : ℕ → ℤ
negate zero = pos 0
negate (suc n) = negsuc n

unfoldable pub read_signed : List ℕ → ℤ
read_signed [] = pos 0
read_signed (c ∷ cs) =
    if c == b'-'
    then negate (read_digits 0 cs)
    else if c == b'+'
    then pos (read_digits 0 cs)
    else pos (read_digits 0 (c ∷ cs))

unfoldable pub atoi : List ℕ → ℤ
atoi cs = read_signed (skip_space cs)

-- `to_string` of a number that is not negative, on fuel.
unfoldable pub show_fuel : ℕ → ℕ → List ℕ
show_fuel zero n = []
show_fuel (suc fuel) n =
    let rest = show_fuel fuel (n / 10) in
    if ltb n 10 then (n + b'0') ∷ [] else rest ++ (n % 10 + b'0') ∷ []

unfoldable pub to_string : ℕ → List ℕ
to_string n = show_fuel (n + 1) n

abbrev pub AllDigits : List ℕ → Type 0
AllDigits [] = Unit {0}
AllDigits (c ∷ cs) = (is_digit c ≡ true) × AllDigits cs

-- What follows the digits of a number: the end, or no digit.
abbrev pub Stops : List ℕ → Type 0
Stops [] = Unit {0}
Stops (c ∷ cs) = is_digit c ≡ false

read_digits-append :
    (acc : ℕ) (xs ys : List ℕ)
    → AllDigits xs
    → read_digits acc (xs ++ ys) ≡ read_digits (read_digits acc xs) ys
unfolding read_digits
read_digits-append acc [] ys h = refl
read_digits-append acc (c ∷ cs) ys h =
    rw (h.0, read_digits) (read_digits-append (acc * 10 + (c - b'0')) cs ys h.1)

read_digits-Stops : (acc : ℕ) (rest : List ℕ) → Stops rest → read_digits acc rest ≡ acc
unfolding read_digits
read_digits-Stops acc [] h = refl
read_digits-Stops acc (c ∷ cs) h = rw (h, read_digits)

AllDigits-append : (xs ys : List ℕ) → AllDigits xs → AllDigits ys → AllDigits (xs ++ ys)
AllDigits-append [] ys h k = k
AllDigits-append (c ∷ cs) ys h k = (h.0, AllDigits-append cs ys h.1 k)

show_fuel-AllDigits : (fuel n : ℕ) → AllDigits (show_fuel fuel n)
unfolding show_fuel
show_fuel-AllDigits zero n = tt
show_fuel-AllDigits (suc fuel) n = elim (Bool-cases (ltb n 10)) [
  | inl one ↦ rw one (ground arith, tt)
  | inr more ↦ rw more (
      AllDigits-append (show_fuel fuel (n / 10)) _ (show_fuel-AllDigits fuel (n / 10))
        (ground arith, tt))
]

read_one : (acc d : ℕ) → d < 10 → read_digits acc ((d + b'0') ∷ []) ≡ acc * 10 + d
unfolding read_digits
read_one acc d h = ground arith

pub read_digits-show : (fuel n : ℕ) → n < fuel → read_digits 0 (show_fuel fuel n) ≡ n
unfolding show_fuel
read_digits-show zero n h = absurd (omega arith)
read_digits-show (suc fuel) n h = elim (Bool-cases (ltb n 10)) [
  | inl one ↦ rw one (omega (arith, read_one 0 n (ground arith)))
  | inr more ↦
      rw
        (
          more,
          read_digits-append 0 (show_fuel fuel (n / 10)) ((n % 10 + b'0') ∷ [])
              (show_fuel-AllDigits fuel (n / 10)),
          read_digits-show fuel (n / 10) (ground arith),
        )
        (omega (arith, read_one (n / 10) (n % 10) (omega arith)))
]

pub show_fuel-ne-nil : (fuel n : ℕ) → show_fuel (suc fuel) n ≢ []
unfolding show_fuel
show_fuel-ne-nil fuel n = elim (Bool-cases (ltb n 10)) [
  | inl one ↦ λ e. ground arith
  | inr more ↦ rw more (ends (show_fuel fuel (n / 10)))
]
  where
    ends : (xs : List ℕ) → xs ++ (n % 10 + b'0') ∷ [] ≢ []
    ends [] e = cc
    ends (x ∷ xs) e = cc

-- A text that begins with a digit is read from there.
atoi-digits :
    (xs rest : List ℕ)
    → AllDigits xs
    → xs ≢ []
    → Stops rest
    → atoi (xs ++ rest) ≡ pos (read_digits 0 xs)
unfolding atoi skip_space read_signed
atoi-digits [] rest h ne stop = absurd (ne refl)
atoi-digits (c ∷ cs) rest h ne stop =
    ground arith
    ∙ ap pos (
        read_digits-append 0 (c ∷ cs) rest h ∙ read_digits-Stops (read_digits 0 (c ∷ cs)) rest stop)

-- `atoi` reads back what `to_string` wrote, whatever follows that is no digit.
pub atoi-to_string : (n : ℕ) (rest : List ℕ) → Stops rest → atoi (to_string n ++ rest) ≡ pos n
unfolding to_string
atoi-to_string n rest stop =
    atoi-digits (show_fuel (n + 1) n) rest (show_fuel-AllDigits (n + 1) n)
      (rw add-one (show_fuel-ne-nil n n)) stop
    ∙ ap pos (read_digits-show (n + 1) n (omega arith))

pub to_string-AllDigits : (n : ℕ) → AllDigits (to_string n)
unfolding to_string
to_string-AllDigits n = show_fuel-AllDigits (n + 1) n

pub to_string-ne-nil : (n : ℕ) → to_string n ≢ []
unfolding to_string
to_string-ne-nil n = rw add-one (show_fuel-ne-nil n n)
