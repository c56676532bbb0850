-- ===== src/Receiver/Complete/Returns.antt =====
-- When `receive` comes to its end.
use comnet.Base.{
  ℕ, ◌+◌, ◌<◌, ◌^◌, ◌≡◌, sym, Bool, true, false, List, [], ◌∷◌, ◌⊎◌, inl, inr, length, subst,
  if_true,
}
use comnet.Packet.{Packet}
use comnet.Receiver.{
  Receiver, Machine, Arrival, Outcome, waiting, returned, returned_null, faulted, receive,
  receive_loop,
}
use comnet.Receiver.Delivery.{IsPrefix, AllCarry, Delivers, receive-Delivers}
use comnet.Receiver.Main.Null.{Raises, EndsNull, receive_loop-EndsNull}
use comnet.Receiver.Complete.Buffer.{Chain, NoneDue}
use comnet.Receiver.Complete.Waits.{IsAtStart, came, Spans, Waits, receive-Waits}

-- A datagram with bytes, or FIN, for the position after the first `a` bytes.
abbrev pub Continues : ℕ → List Packet → Type 0
Continues a [] = ⊥
Continues a (p ∷ ps) = ((p.seq_num ≡ a + 1) × (p.data_len ≡ 0 → p.fin ≡ true)) ⊎ Continues a ps

NoneDue-stuck :
    (span : ℕ → ℕ) (final : ℕ → Bool) (a : ℕ) (ps : List Packet)
    → NoneDue span final a ps
    → Continues a ps
    → ⊥
NoneDue-stuck span final a [] h c = c
NoneDue-stuck span final a (p ∷ ps) h (inl (due, full)) =
    let (no_bytes, no_fin) = h.0 due in no_fin (full no_bytes)
NoneDue-stuck span final a (p ∷ ps) h (inr c) = NoneDue-stuck span final a ps h.1 c

-- `receive` hands over the file, if no call of `recvFrom` throws.
abbrev pub Returns : List ℕ → List Arrival → Outcome → Type 0
Returns file arrivals (waiting r sent) = ⊥
Returns file arrivals (returned r sent) = r.recv_data ≡ file
Returns file arrivals returned_null = Raises arrivals
Returns file arrivals faulted = ⊥

module _ (file : List ℕ) (small : length file < 2 ^ 31) (span : ℕ → ℕ) (final : ℕ → Bool) where
  ends-Returns :
      (arrivals : List Arrival) (ps : List Packet) (out : Outcome)
      → Delivers file small out
      → EndsNull arrivals out
      → Waits file small span final ps out
      → ((a : ℕ) → Chain span final a false → Continues a ps)
      → Returns file arrivals out
  ends-Returns arrivals ps (waiting r sent) d n w c =
      NoneDue-stuck span final r.acked_position ps w.0 (c r.acked_position w.1)
  ends-Returns arrivals ps (returned r sent) d n w c = d
  ends-Returns arrivals ps returned_null d n w c = n
  ends-Returns arrivals ps faulted d n w c = d

  -- For a file below 2 ^ 31 bytes and a receiver that starts with its socket open and simulates no
  -- loss: if all datagrams carry segments of the file, their lengths and FIN told by their sequence
  -- numbers, and for every position that segments in turn lead to before the last one a datagram
  -- with bytes or FIN came, then in whatever order and how often they came, `receive` does not wait:
  -- it returns the whole file, or NULL where a call of `recvFrom` throws.
  pub receive-Returns :
      (mach : Machine) (r : Receiver) (arrivals : List Arrival)
      → r.opened ≡ true
      → IsPrefix file r
      → IsAtStart r
      → AllCarry file small arrivals
      → Spans file small span final arrivals
      → ((a : ℕ) → Chain span final a false → Continues a (came [] arrivals))
      → Returns file arrivals (receive mach r arrivals)
  unfolding receive
  receive-Returns mach r arrivals opened v h c s all_came =
      subst (Returns file arrivals) (sym (if_true _ _ _ opened)) (
        ends-Returns arrivals (came [] arrivals) (receive_loop mach r [] arrivals)
          (subst (Delivers file small) (if_true _ _ _ opened)
            (receive-Delivers file small mach r arrivals v c).0)
          (receive_loop-EndsNull mach arrivals r [])
          (receive-Waits file small span final mach r arrivals v h c s) all_came)
