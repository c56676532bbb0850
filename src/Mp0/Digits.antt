-- ===== src/Mp0/Digits.antt =====
-- The loop over the digits in MP0/client.c, and what it makes of a number with a text behind it.
use native.Mathlib.Numerals.{add-one}
use comnet.Base.{
  ℕ, zero, suc, ◌+◌, ◌-◌, ◌*◌, ◌/◌, ◌%◌, ◌≤◌, ◌<◌, ◌≡◌, ◌↔◌, ◌≢◌, refl, sym, ap, ◌∙◌, true, false,
  List, [], ◌∷◌, ◌++◌, inl, inr, arith, Bool-cases, ltb, length, length-append, c_string, ◌^◌,
  if_true,
}
use comnet.Base.Decimal.{is_digit, read_digits, to_string, show_fuel, AllDigits, Stops}
use comnet.Base.Join.{Lacks, c_string-Lacks}
use comnet.Mp0.Client.{Exit, shows, take_digits, show_number}

pub take_digits-append :
    (acc : ℕ) (xs rest : List ℕ)
    → AllDigits xs
    → take_digits acc (xs ++ rest) ≡ take_digits (read_digits acc xs) rest
unfolding take_digits read_digits
take_digits-append acc [] rest h = refl
take_digits-append acc (c ∷ cs) rest h =
    rw (h.0, take_digits, read_digits) (take_digits-append (acc * 10 + (c - b'0')) cs rest h.1)

take_digits-Stops : (n : ℕ) (rest : List ℕ) → Stops rest → take_digits n rest ≡ (n, rest)
unfolding take_digits
take_digits-Stops n [] h = refl
take_digits-Stops n (c ∷ cs) h = rw (h, take_digits) refl

take_digits-shorter : (n : ℕ) (xs : List ℕ) → length (take_digits n xs).1 ≤ length xs
unfolding take_digits
take_digits-shorter n [] = omega arith
take_digits-shorter n (c ∷ cs) = elim (Bool-cases (is_digit c)) [
  | inl digit ↦
      rw (digit, take_digits) (omega (arith, take_digits-shorter (n * 10 + (c - b'0')) cs))
  | inr other ↦ rw (other, take_digits) (omega arith)
]

pub c_string-shorter : (xs : List ℕ) → length (c_string xs) ≤ length xs
unfolding c_string
c_string-shorter [] = omega arith
c_string-shorter (c ∷ cs) = ground (arith, c_string-shorter cs)

show_one : (fuel n : ℕ) → n < 10 → length (show_fuel (suc fuel) n) ≡ 1
unfolding show_fuel
show_one fuel n h = ground arith

show_more : (n : ℕ) → n < 100 → ltb n 10 ≡ false → length (show_fuel (suc n) n) ≤ 2
unfolding show_fuel
show_more zero h more = absurd (ground arith)
show_more (suc k) h more =
    rw (more, show_fuel)
      (omega (
        arith,
        length-append (show_fuel (suc k) (suc k / 10)) ((suc k % 10 + b'0') ∷ []),
        show_one k (suc k / 10) (omega arith),
      ))

pub show_two : (n : ℕ) → n < 100 → length (to_string n) ≤ 2
unfolding to_string
show_two n h = rw add-one (elim (Bool-cases (ltb n 10)) [
  | inl one ↦ omega (arith, show_one n n (ground arith))
  | inr more ↦ show_more n h more
])

text_of : Exit → List ℕ
text_of (shows n text) = text
text_of Exit.overflows = []
text_of Exit.usage = []
text_of Exit.no_address = []
text_of Exit.not_connected = []
text_of Exit.not_received = []

length-text_of : (p : ℕ × List ℕ) → length (text_of (show_number p)) ≤ length (c_string p.1)
unfolding text_of show_number
length-text_of (num, rest) = elim (Bool-cases (ltb num (2 ^ 31))) [
  | inl fits ↦ rw fits (omega arith)
  | inr big ↦ rw big (omega arith)
]

-- Digits that follow the number are lost to the text.
digit_lost :
    (n c : ℕ) (cs : List ℕ)
    → is_digit c ≡ true
    → show_number (take_digits n (c ∷ cs)) ≢ shows n (c ∷ cs)
unfolding text_of take_digits
digit_lost n c cs digit e = absurd (omega (arith, lost, kept))
  where
    after : ℕ × List ℕ
    after = take_digits (n * 10 + (c - b'0')) cs

    lost : length (c_string after.1) ≤ length cs
    lost = omega (arith, c_string-shorter after.1, take_digits-shorter (n * 10 + (c - b'0')) cs)

    step : take_digits n (c ∷ cs) ≡ after
    step = rw (digit, take_digits) refl

    shown : length (text_of (show_number after)) ≡ suc (length cs)
    shown = ap (λ p. length (text_of (show_number p))) (sym step) ∙ ap (λ x. length (text_of x)) e

    kept : suc (length cs) ≤ length (c_string after.1)
    kept = omega (arith, shown, length-text_of after)

pub show_number-Stops :
    (n : ℕ) (text : List ℕ)
    → n < 100
    → Lacks 0 text
    → (show_number (take_digits n text) ≡ shows n text) ↔ Stops text
unfolding show_number
show_number-Stops n text two no_nul = (
  λ e. begins text e,
  λ h.
      ap show_number (take_digits-Stops n text h)
      ∙ if_true _ _ _ fits
      ∙ ap (shows n) (c_string-Lacks text no_nul),
)
  where
    fits : ltb n (2 ^ 31) ≡ true
    fits = ground arith

    begins : (t : List ℕ) → show_number (take_digits n t) ≡ shows n t → Stops t
    begins [] e = tt
    begins (c ∷ cs) e = elim (Bool-cases (is_digit c)) [
      | inl digit ↦ absurd (digit_lost n c cs digit e)
      | inr other ↦ other
    ]
