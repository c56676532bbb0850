-- ===== src/Receiver/Direct.antt =====
-- The datagram that is due, at a receiver that drops nothing and keeps nothing.
use comnet.Base.{
  ℕ, ◌+◌, ◌≤◌, ◌<◌, ◌^◌, ◌≡◌, refl, ap, ◌∙◌, true, false, ◌||◌, List, [], ◌∷◌, inl, inr, arith,
  length, take, ltb, ◌==◌, Bool-cases, u32, read_array-eq-take,
}
use comnet.Packet.{Packet}
use comnet.Receiver.{
  Receiver, Early, Machine, Endpoint, received, failed, go_on, periodic_loss, specific_loss,
  note_source, filter_loss, receive_packet, take_packet, process_packet, check_early_loop,
  check_early_data, send_ack, respond, act, step,
}

-- No loss is simulated, and no early segment is kept.
pub record IsDirect (r : Receiver) : Type 0 where
  pub steady : r.periodic ≡ false
  pub unspecific : r.specific ≡ false
  pub nothing_early : r.buffer ≡ []

check_early_data-empty : (r : Receiver) → r.buffer ≡ [] → check_early_data r ≡ r
unfolding check_early_data check_early_loop
check_early_data-empty r e = ap (λ (m : List (ℕ × Early)). check_early_loop (length m) r) e

-- The turn at the datagram that is due.
respond-due :
    (mach : Machine) (r : Receiver) (p : Packet)
    → r.buffer ≡ []
    → p.seq_num ≡ u32 (r.acked_position + 1)
    → p.data_len ≤ length p.payload
    → respond mach r p ≡ (
        let r' = take_packet r p (take p.data_len p.payload) in
        go_on r' (send_ack r' p.seq_num ∷ []))
unfolding respond process_packet
respond-due mach r p e due short =
    rw (early, late, process_packet, read_array-eq-take p.data_len p.payload short, kept)
  where
    early : ltb (u32 (r.acked_position + 1)) p.seq_num ≡ false
    early = ground arith

    late : ltb p.seq_num (u32 (r.acked_position + 1)) ≡ false
    late = ground arith

    kept :
        check_early_data (take_packet r p (take p.data_len p.payload))
        ≡ take_packet r p (take p.data_len p.payload)
    kept = check_early_data-empty _ (unfold take_packet in e)

-- What the turn comes to.
pub record Taken (r : Receiver) (p : Packet) (r' : Receiver) (ack : Packet) : Type 0 where
  pub direct : IsDirect r'
  pub acked : r'.acked_position ≡ r.acked_position + p.data_len
  pub fin : r'.fin ≡ (r.fin || p.fin)
  pub flag : ack.ack ≡ true
  pub number : ack.ack_num ≡ u32 (r'.acked_position + 1)
  pub final : ack.fin ≡ r'.fin

take_packet-Taken :
    (r : Receiver) (p : Packet) (bytes : List ℕ) (seq : ℕ)
    → IsDirect r
    → r.acked_position + p.data_len < 2 ^ 32
    → Taken r p (take_packet r p bytes) (send_ack (take_packet r p bytes) seq)
unfolding take_packet send_ack
take_packet-Taken r p bytes seq d small = record {
  direct = record { steady = d.steady; unspecific = d.unspecific; nothing_early = d.nothing_early };
  acked = omega (arith, small);
  fin = refl;
  flag = refl;
  number = refl;
  final = refl;
}

-- A receiver that is counting one more datagram, whichever source it notes.
unfoldable pub noted : Receiver → Endpoint → Receiver
noted r from = note_source (record r { rsn = r.rsn + 1 }) from

record Same (r r' : Receiver) : Type 0 where
  acked : r'.acked_position ≡ r.acked_position
  fin : r'.fin ≡ r.fin
  direct : IsDirect r'

noted-Same : (r : Receiver) (from : Endpoint) → IsDirect r → Same r (noted r from)
unfolding noted note_source
noted-Same r from d = elim (Bool-cases (r.acked_position == 0)) [
  | inl new ↦ rw new (record {
    acked = refl;
    fin = refl;
    direct = record {
      steady = d.steady;
      unspecific = d.unspecific;
      nothing_early = d.nothing_early;
    };
  })
  | inr old ↦ rw old (record {
    acked = refl;
    fin = refl;
    direct = record {
      steady = d.steady;
      unspecific = d.unspecific;
      nothing_early = d.nothing_early;
    };
  })
]

pub filtered :
    (mach : Machine) (r : Receiver) (p : Packet) (from : Endpoint)
    → r.periodic ≡ false
    → r.specific ≡ false
    → step mach r (received p from) ≡ respond mach (noted r from) p
unfolding step receive_packet filter_loss periodic_loss specific_loss act noted
filtered mach r p from steady unspecific = rw (steady, unspecific)

pub filtered_failed :
    (mach : Machine) (r : Receiver) (from : Endpoint)
    → r.periodic ≡ false
    → r.specific ≡ false
    → step mach r (failed from) ≡ go_on (noted r from) []
unfolding step receive_packet filter_loss periodic_loss specific_loss act noted
filtered_failed mach r from steady unspecific = rw (steady, unspecific)

-- The datagram that is due is taken at once and acknowledged.
pub step-Taken :
    (mach : Machine) (r : Receiver) (p : Packet) (from : Endpoint)
    → IsDirect r
    → p.seq_num ≡ r.acked_position + 1
    → p.data_len ≤ length p.payload
    → r.acked_position + p.data_len < 2 ^ 31
    → (r' : Receiver) × (ack : Packet) × (step mach r (received p from) ≡ go_on r' (ack ∷ []))
      × Taken r p r' ack
step-Taken mach r p from d due short small = (
  r',
  ack,
  turn,
  record {
    direct = t.direct;
    acked = t.acked ∙ ap (λ n. n + p.data_len) s.acked;
    fin = t.fin ∙ ap (λ b. b || p.fin) s.fin;
    flag = t.flag;
    number = t.number;
    final = t.final;
  },
)
  where
    s : Same r (noted r from)
    s = noted-Same r from d

    r' : Receiver
    r' = take_packet (noted r from) p (take p.data_len p.payload)

    ack : Packet
    ack = send_ack r' p.seq_num

    t : Taken (noted r from) p r' ack
    t =
        take_packet-Taken (noted r from) p (take p.data_len p.payload) p.seq_num s.direct
          (omega (arith, s.acked, small))

    turn : step mach r (received p from) ≡ go_on r' (ack ∷ [])
    turn =
        filtered mach r p from d.steady d.unspecific
        ∙ respond-due mach (noted r from) p s.direct.nothing_early
            (omega (arith, s.acked, due, small)) short
