-- ===== src/Receiver/Pattern/Written.antt =====
-- The loss pattern that is loaded from a file that was written as the program expects it.
use comnet.Base.{
  ◌<◌, ◌-◌, ◌^◌, ℕ, zero, suc, ◌+◌, ◌≤◌, ◌≡◌, ◌≢◌, refl, sym, ap, ap₂, ◌∙◌, true, false, List, [],
  ◌∷◌, ◌++◌, map, append_assoc, append-nil, some, if◌then◌else◌, arith, ◌==◌, length, if_false,
}
use Prim.Native.Nat.{min}
use comnet.Base.Int.{pos, ltb_ℤ, to_int, to_int-small, to_int_signed, to_long}
use comnet.Base.Decimal.{to_string}
use comnet.Base.Join.{
  join, join_rest, Lacks, Items, written, shown-Items, atoi-shown, Lacks-written, c_string-Lacks,
}
use comnet.Stream.{Disk}
use comnet.Receiver.{Receiver}
use comnet.Receiver.Pattern.{
  get_line, first_line, tokens_from, loaded, refused, positive, push_packets, to_number,
  load_periodic, load_packets, load_specific, load_mode, load_tokens, load_line, open_loss_pattern,
}

tokens_from-other :
    (y : ℕ) (token : List ℕ) (c : ℕ) (cs : List ℕ)
    → (c == b' ') ≡ false
    → tokens_from (y ∷ token) (c ∷ cs) ≡ tokens_from (y ∷ token ++ c ∷ []) cs
unfolding tokens_from
tokens_from-other y token c cs e = rw (e, tokens_from)

tokens_from-first :
    (c : ℕ) (cs : List ℕ) → (c == b' ') ≡ false → tokens_from [] (c ∷ cs) ≡ tokens_from (c ∷ []) cs
unfolding tokens_from
tokens_from-first c cs e = rw (e, tokens_from)

tokens_from-item :
    (y : ℕ) (token x rest : List ℕ)
    → Lacks b' ' x
    → tokens_from (y ∷ token) (x ++ rest) ≡ tokens_from (y ∷ token ++ x) rest
unfolding tokens_from
tokens_from-item y token [] rest h = ap (λ t. tokens_from (y ∷ t) rest) (sym (append-nil token))
tokens_from-item y token (c ∷ cs) rest h =
    tokens_from-other y token c (cs ++ rest) h.0
    ∙ tokens_from-item y (token ++ c ∷ []) cs rest h.1
    ∙ ap (λ t. tokens_from (y ∷ t) rest) (append_assoc token (c ∷ []) cs)

tokens_from-rest :
    (y : ℕ) (token : List ℕ) (xs : List (List ℕ))
    → Items b' ' xs
    → tokens_from (y ∷ token) (join_rest b' ' xs) ≡ (y ∷ token) ∷ xs
unfolding tokens_from join_rest
tokens_from-rest y token [] h = refl
tokens_from-rest y token ([] ∷ xs) h = absurd (h.1 refl)
tokens_from-rest y token ((c ∷ cs) ∷ xs) h =
    ap (λ t. (y ∷ token) ∷ t)
      (tokens_from-first c (cs ++ join_rest b' ' xs) h.0.0
        ∙ tokens_from-item c [] cs (join_rest b' ' xs) h.0.1
        ∙ tokens_from-rest c cs xs h.2)

-- The tokens of a line are the items that were joined.
tokens_from-join : (xs : List (List ℕ)) → Items b' ' xs → tokens_from [] (join b' ' xs) ≡ xs
unfolding tokens_from join join_rest
tokens_from-join [] h = refl
tokens_from-join ([] ∷ xs) h = absurd (h.1 refl)
tokens_from-join ((c ∷ cs) ∷ xs) h =
    tokens_from-first c (cs ++ join_rest b' ' xs) h.0.0
    ∙ tokens_from-item c [] cs (join_rest b' ' xs) h.0.1
    ∙ tokens_from-rest c cs xs h.2

get_line-written :
    (n : ℕ) (line rest : List ℕ)
    → Lacks b'\n' line
    → length line ≤ n
    → get_line n (line ++ b'\n' ∷ rest) ≡ (line, some rest)
unfolding get_line
get_line-written zero [] rest h k = refl
get_line-written (suc n) [] rest h k = refl
get_line-written zero (c ∷ cs) rest h k = absurd (omega arith)
get_line-written (suc n) (c ∷ cs) rest h k =
    rw (get_line-written n cs rest h.1 (omega arith)) (if_false _ _ _ h.0)

first_line-written :
    (fuel : ℕ) (line rest : List ℕ)
    → Lacks b'\n' line
    → Lacks 0 line
    → line ≢ []
    → length line ≤ 511
    → first_line (suc fuel) (line ++ b'\n' ∷ rest) ≡ some line
unfolding first_line
first_line-written fuel [] rest h z ne k = absurd (ne refl)
first_line-written fuel (c ∷ cs) rest h z ne k =
    rw (first_line, get_line-written 511 (c ∷ cs) rest h k, c_string-Lacks (c ∷ cs) z)

-- The file that says in decimal what `ws` says, on its first line.
abbrev pub written_file : List ℕ → List ℕ → Disk
written_file ws rest = record { readable = true; contents = written ws ++ b'\n' ∷ rest }

written-ne-nil : (w : ℕ) (ws : List ℕ) → written (w ∷ ws) ≢ []
unfolding join
written-ne-nil w ws = begins (to_string w) (shown-Items (w ∷ [])).1
  where
    begins : (xs : List ℕ) → xs ≢ [] → xs ++ join_rest b' ' (map to_string ws) ≢ []
    begins [] ne e = ne refl
    begins (x ∷ xs) ne e = cc

to_number-shown : (n : ℕ) → n < 2 ^ 31 → to_number (to_string n) ≡ pos n
unfolding to_number to_int_signed to_long
to_number-shown n h =
    let whole : min n (2 ^ 63 - 1) ≡ n = omega arith in
    ap (λ z. to_int_signed (to_long z)) (atoi-shown n) ∙ ap to_int whole ∙ to_int-small n h

open-written :
    (w : ℕ) (ws rest : List ℕ) (r : Receiver)
    → w < 2 ^ 31
    → length (written (w ∷ ws)) ≤ 511
    → open_loss_pattern (written_file (w ∷ ws) rest) r ≡ load_mode r (pos w) (map to_string ws)
unfolding open_loss_pattern load_line load_tokens
open-written w ws rest r fits short =
    ap (load_line r) (
      ap (λ n. first_line n (written (w ∷ ws) ++ b'\n' ∷ rest)) (one_more _)
      ∙ first_line-written _ (written (w ∷ ws)) rest (Lacks-written b'\n' (w ∷ ws) refl refl)
          (Lacks-written 0 (w ∷ ws) refl refl) (written-ne-nil w ws) short)
    ∙ ap (load_tokens r) (tokens_from-join (map to_string (w ∷ ws)) (shown-Items (w ∷ ws)))
    ∙ ap (λ z. load_mode r z (map to_string ws)) (to_number-shown w fits)
  where
    one_more : (n : ℕ) → n + 1 ≡ suc n
    one_more n = omega arith

-- Positive numbers of the type `int`.
abbrev pub AllPositive : List ℕ → Type 0
AllPositive [] = Unit {0}
AllPositive (n ∷ ns) = (1 ≤ n) × (n < 2 ^ 31) × AllPositive ns

push_packets-shown : (ns : List ℕ) → AllPositive ns → push_packets (map to_string ns) ≡ ns
unfolding push_packets positive
push_packets-shown [] h = refl
push_packets-shown (zero ∷ ns) h = absurd (omega (arith, h.0))
push_packets-shown (suc n ∷ ns) h =
    rw (to_number-shown (suc n) h.1) (ap (λ t. suc n ∷ t) (push_packets-shown ns h.2))

load_specific-pushed :
    (n : ℕ) (ns : List ℕ) (tokens : List (List ℕ)) (r : Receiver)
    → r.specific_packets ≡ []
    → push_packets tokens ≡ n ∷ ns
    → load_specific r tokens ≡ loaded (record r { specific_packets = n ∷ ns; specific = true })
unfolding load_specific load_packets
load_specific-pushed n ns tokens r none_yet e =
    ap (λ packets. load_packets (record r { specific_packets = packets })) (ap₂ ◌++◌ none_yet e)

-- A first line of at most 511 bytes with 2 and then positive numbers below 2 ^ 31, at least one, is
-- loaded as the specific losses at these numbers.
pub open_loss_pattern_specific :
    (n : ℕ) (ns rest : List ℕ) (r : Receiver)
    → AllPositive (n ∷ ns)
    → r.specific_packets ≡ []
    → length (written (2 ∷ n ∷ ns)) ≤ 511
    → open_loss_pattern (written_file (2 ∷ n ∷ ns) rest) r
      ≡ loaded (record r { specific_packets = n ∷ ns; specific = true })
unfolding load_mode load_specific
open_loss_pattern_specific n ns rest r h none_yet short =
    open-written 2 (n ∷ ns) rest r (omega arith) short
    ∙ load_specific-pushed n ns (map to_string (n ∷ ns)) r none_yet (push_packets-shown (n ∷ ns) h)

-- A first line of at most 511 bytes with 1 and a number below 2 ^ 31 is loaded as that period if it
-- is at least 2, and refused if it is not, with the period stored all the same.
pub open_loss_pattern_periodic :
    (n : ℕ) (rest : List ℕ) (r : Receiver)
    → n < 2 ^ 31
    → length (written (1 ∷ n ∷ [])) ≤ 511
    → open_loss_pattern (written_file (1 ∷ n ∷ []) rest) r ≡ (
        if ltb_ℤ (pos n) (pos 2)
        then refused (record r { loss_period = pos n })
        else loaded (record r { loss_period = pos n; periodic = true }))
unfolding load_mode load_periodic
open_loss_pattern_periodic n rest r fits short =
    open-written 1 (n ∷ []) rest r (omega arith) short ∙ rw (to_number-shown n fits)
