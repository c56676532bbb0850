-- ===== src/Receiver/Main/Fresh.antt =====
-- The constructor of the receiver, whatever loss pattern it reads.
use comnet.Base.{
  ℕ, ◌≡◌, refl, sym, subst, true, false, List, [], ◌∷◌, Option, none, some, inl, inr, arith,
  Bool-cases, if_true, if_false, ◌==◌,
}
use comnet.Base.Int.{ℤ, pos, negsuc, ltb_ℤ}
use comnet.Stream.{Disk}
use comnet.Receiver.{Receiver, initial}
use comnet.Receiver.Pattern.{
  Loading, loaded, refused, crashed, hanging, open_loss_pattern, load_line, load_tokens, load_mode,
  to_number, load_periodic, load_specific, load_packets, tokens_from,
}
use comnet.Receiver.Delivery.{IsPrefix}

-- A receiver that has received nothing.
abbrev pub IsFresh : Receiver → Type 0
IsFresh r = (r.acked_position ≡ 0) × (r.recv_data ≡ []) × (r.fin ≡ false) × (r.buffer ≡ [])

abbrev pub LoadsFresh : Loading → Type 0
LoadsFresh (loaded r) = IsFresh r
LoadsFresh (refused r) = IsFresh r
LoadsFresh crashed = Unit {0}
LoadsFresh hanging = Unit {0}

load_packets-LoadsFresh :
    (r : Receiver) (packets : List ℕ)
    → IsFresh r
    → LoadsFresh (load_packets (record r { specific_packets = packets }))
unfolding load_packets
load_packets-LoadsFresh r [] h = h
load_packets-LoadsFresh r (p ∷ ps) h = h

load_periodic-LoadsFresh :
    (r : Receiver) (tokens : List (List ℕ)) → IsFresh r → LoadsFresh (load_periodic r tokens)
unfolding load_periodic
load_periodic-LoadsFresh r [] h = tt
load_periodic-LoadsFresh r (t ∷ ts) h = elim (Bool-cases (ltb_ℤ (to_number t) (pos 2))) [
  | inl low ↦ subst LoadsFresh (sym (if_true _ _ _ low)) h
  | inr high ↦ subst LoadsFresh (sym (if_false _ _ _ high)) h
]

load_mode-LoadsFresh :
    (r : Receiver) (mode : ℤ) (tokens : List (List ℕ))
    → IsFresh r
    → LoadsFresh (load_mode r mode tokens)
unfolding load_mode load_specific
load_mode-LoadsFresh r (negsuc n) tokens h = h
load_mode-LoadsFresh r (pos n) tokens h = elim (Bool-cases (n == 0)) [
  | inl at_0 ↦ rw at_0 h
  | inr not_0 ↦ elim (Bool-cases (n == 1)) [
    | inl at_1 ↦ rw (not_0, at_1) (load_periodic-LoadsFresh r tokens h)
    | inr not_1 ↦ elim (Bool-cases (n == 2)) [
      | inl at_2 ↦ rw (not_0, not_1, at_2) (load_packets-LoadsFresh r _ h)
      | inr not_2 ↦ rw (not_0, not_1, not_2) h
    ]
  ]
]

load_tokens-LoadsFresh :
    (r : Receiver) (tokens : List (List ℕ)) → IsFresh r → LoadsFresh (load_tokens r tokens)
unfolding load_tokens
load_tokens-LoadsFresh r [] h = tt
load_tokens-LoadsFresh r (t ∷ ts) h = load_mode-LoadsFresh r (to_number t) ts h

load_line-LoadsFresh :
    (r : Receiver) (line : Option (List ℕ)) → IsFresh r → LoadsFresh (load_line r line)
unfolding load_line
load_line-LoadsFresh r none h = tt
load_line-LoadsFresh r (some line) h = load_tokens-LoadsFresh r (tokens_from [] line) h

initial-IsFresh : IsFresh initial
unfolding initial
initial-IsFresh = (refl, refl, refl, refl)

pub open_loss_pattern-LoadsFresh : (d : Disk) → LoadsFresh (open_loss_pattern d initial)
unfolding open_loss_pattern
open_loss_pattern-LoadsFresh d = elim (Bool-cases d.readable) [
  | inl there ↦ rw there (load_line-LoadsFresh initial _ initial-IsFresh)
  | inr gone ↦ rw gone tt
]

pub IsFresh-IsPrefix :
    (file : List ℕ) (r : Receiver) → IsFresh r → IsPrefix file (record r { opened = true })
IsFresh-IsPrefix file r h = record {
  fits = omega (arith, h.0);
  held = rw h.0 h.1;
  early = rw h.3 tt;
  ended = λ e. cc (e, h.2);
}
