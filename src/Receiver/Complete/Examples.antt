-- ===== src/Receiver/Complete/Examples.antt =====
-- Two datagrams in the wrong order.
use comnet.Base.{
  ℕ, ◌+◌, ◌^◌, ◌<◌, ◌≡◌, ◌⊎◌, ◌||◌, refl, Bool, true, false, not, List, [], ◌∷◌, inl, inr, arith,
  length, replicate, if◌then◌else◌, ltb,
}
use comnet.Packet.{Packet}
use comnet.Segment.{IsSegment}
use comnet.Receiver.{Arrival, received, receive, initial}
use comnet.Receiver.Examples.{machine, anywhere, listening}
use comnet.Receiver.Delivery.{initial-IsPrefix}
use comnet.Receiver.Complete.Buffer.{Chain, start, more}
use comnet.Receiver.Complete.Waits.{IsAtStart}
use comnet.Receiver.Complete.Returns.{Continues, Returns, receive-Returns}

abbrev file : List ℕ
file = 7 ∷ 8 ∷ 9 ∷ []

abbrev small : length file < 2 ^ 31
small = omega arith

abbrev head : Packet
head = record {
  seq_num = 1;
  ack_num = 0;
  data_len = 2;
  ack = false;
  fin = false;
  payload = 7 ∷ 8 ∷ replicate 98 0;
}

abbrev last : Packet
last = record {
  seq_num = 3;
  ack_num = 0;
  data_len = 1;
  ack = false;
  fin = true;
  payload = 9 ∷ replicate 99 0;
}

head-IsSegment : IsSegment file head
head-IsSegment = record {
  chunk = record { counted = omega arith; inside = omega arith; same = refl; ends = λ e. cc };
  short = omega arith;
  no_nul = (omega arith, (omega arith, tt));
}

last-IsSegment : IsSegment file last
last-IsSegment = record {
  chunk = record { counted = omega arith; inside = omega arith; same = refl; ends = λ e. refl };
  short = omega arith;
  no_nul = (omega arith, tt);
}

-- Two bytes from the first one on; one from the third one on, which is the last.
abbrev span : ℕ → ℕ
span k = if ltb k 3 then 2 else 1

abbrev final : ℕ → Bool
final k = not (ltb k 3)

listening-IsAtStart : IsAtStart listening
unfolding initial
listening-IsAtStart = record {
  steady = refl;
  unspecific = refl;
  nothing_early = refl;
  unacked = refl;
  running = refl;
}

listening-opened : listening.opened ≡ true
listening-opened = refl

positions :
    {a : ℕ} {f : Bool}
    → Chain span final a f
    → ((a ≡ 0) × (f ≡ false)) ⊎ (((a ≡ 2) × (f ≡ false)) ⊎ (f ≡ true))
positions start = inl (refl, refl)
positions (more c e g) = next (positions c) e g
  where
    next :
        {a b : ℕ} {f k : Bool}
        → ((a ≡ 0) × (f ≡ false)) ⊎ (((a ≡ 2) × (f ≡ false)) ⊎ (f ≡ true))
        → b ≡ a + span (a + 1)
        → k ≡ (f || final (a + 1))
        → ((b ≡ 0) × (k ≡ false)) ⊎ (((b ≡ 2) × (k ≡ false)) ⊎ (k ≡ true))
    next h e g = ground arith

abbrev arrivals : List Arrival
arrivals = received last anywhere ∷ received head anywhere ∷ []

all_came : (a : ℕ) → Chain span final a false → Continues a (head ∷ last ∷ [])
all_came a c = here (positions c)
  where
    here :
        ((a ≡ 0) × (false ≡ false)) ⊎ (((a ≡ 2) × (false ≡ false)) ⊎ (◌≡◌ {A = Bool} false true))
        → Continues a (head ∷ last ∷ [])
    here (inl (first, x)) = inl (omega (arith, first), λ e. absurd (omega (arith, e)))
    here (inr (inl (second, x))) = inr (inl (omega (arith, second), λ e. refl))
    here (inr (inr x)) = absurd (cc (x))

receive-Returns_example : Returns file arrivals (receive machine listening arrivals)
receive-Returns_example =
    receive-Returns file small span final machine listening arrivals listening-opened
      (initial-IsPrefix file small) listening-IsAtStart (last-IsSegment, (head-IsSegment, tt))
      (refl, refl, (refl, refl, tt)) all_came
