-- ===== src/Receiver/Progress.antt =====
-- What holds of the receiver whatever datagrams arrive.
mod Appends
use comnet.Receiver.Progress.Appends.{
  IsCounted, Advances, Advances-self, Advances-trans, length-read_array, take_packet-Advances,
  store_early_data-Advances, check_early_loop-Advances,
}
use comnet.Base.{
  ℕ, ◌+◌, ◌≡◌, refl, sym, Bool, true, false, List, [], ◌∷◌, ◌++◌, inl, inr, arith, Bool-cases, ltb,
  if◌then◌else◌, length, u32, read_array, Option-cases, append-nil, ◌≤◌, ap, length-append,
}
use comnet.Packet.{Packet}
use comnet.Receiver.Loss.{filter_loss_cases}
use comnet.Receiver.{
  Receiver, Machine, Endpoint, Arrival, received, failed, raised, Reading, got, skipped, Turn,
  go_on, give_up, undefined, Outcome, waiting, returned, returned_null, faulted, follow,
  receive_loop, filter_loss, receive_packet, process_packet, check_early_data, send_ack, respond,
  act, step,
}

-- A turn that goes on advances the receiver and sends one acknowledgement, for `seq`.
abbrev Answers : Receiver → ℕ → Turn → Type 0
Answers r seq (go_on r' acks) = Advances r r' × (acks ≡ send_ack r' seq ∷ [])
Answers r seq give_up = ⊥
Answers r seq undefined = Unit {0}

respond-Answers :
    (mach : Machine) (r : Receiver) (p : Packet)
    → IsCounted r
    → Answers r p.seq_num (respond mach r p)
unfolding respond process_packet
respond-Answers mach r p c = elim (Bool-cases (ltb (u32 (r.acked_position + 1)) p.seq_num)) [
  | inl early ↦ rw early (store_early_data-Advances mach r p c, refl)
  | inr timely ↦ elim (Bool-cases (ltb p.seq_num (u32 (r.acked_position + 1)))) [
    | inl old ↦ rw (timely, old) (Advances-self r c, refl)
    | inr due ↦ elim (Option-cases (read_array p.data_len p.payload)) [
      | inl e ↦ rw (timely, due, process_packet, e) tt
      | inr (bytes, e) ↦
          let a = take_packet-Advances r p bytes c (length-read_array _ _ _ e) in
          rw (timely, due, process_packet, e)
            (
              Advances-trans a (unfold check_early_data in check_early_loop-Advances _ _ a.counted),
              refl,
            )
    ]
  ]
]

-- A turn that goes on advances the receiver and sends one acknowledgement or none. Of one, the
-- ACK flag is set, the number is that of the first byte that is missing after the turn, and FIN is
-- the receiver's.
abbrev pub Acknowledges : Receiver → Turn → Type 0
Acknowledges r (go_on r' []) = Advances r r'
Acknowledges r (go_on r' (a ∷ [])) =
    Advances r r' × (a.ack ≡ true) × (a.ack_num ≡ u32 (length r'.recv_data + 1)) × (a.fin ≡ r'.fin)
Acknowledges r (go_on r' (a ∷ b ∷ rest)) = ⊥
Acknowledges r give_up = Unit {0}
Acknowledges r undefined = Unit {0}

Acknowledges-of_Answers :
    (r q : Receiver) (seq : ℕ) (t : Turn) → Advances r q → Answers q seq t → Acknowledges r t
Acknowledges-of_Answers r q seq (go_on r' []) a h = Advances-trans a h.0
Acknowledges-of_Answers r q seq (go_on r' (x ∷ [])) a h = (
  Advances-trans a h.0,
  unfold send_ack in ground arith,
  unfold send_ack in ground (arith, h.0.counted),
  unfold send_ack in ground arith,
)
Acknowledges-of_Answers r q seq (go_on r' (x ∷ y ∷ rest)) a h = cc
Acknowledges-of_Answers r q seq give_up a h = tt
Acknowledges-of_Answers r q seq undefined a h = tt

counting : (r : Receiver) → IsCounted r → Advances r (record r { rsn = r.rsn + 1 })
counting r c = record {
  added = [];
  appended = sym (append-nil r.recv_data);
  counted = c;
  final = λ e. e;
}

-- The filter leaves what `Advances` speaks of as it is.
filter_loss-Acknowledges :
    (mach : Machine) (s r : Receiver) (from : Endpoint) (reading : Reading)
    → Advances s r
    → ((q : Receiver) → Advances s q → Acknowledges s (act mach q reading))
    → Acknowledges s
        (act mach (filter_loss mach r from reading).0 (filter_loss mach r from reading).1)
filter_loss-Acknowledges mach s r from reading a go =
    filter_loss_cases (λ out. Acknowledges s (act mach out.0 out.1)) mach r from reading
      (unfold act in a) (unfold act in again _) (go _ (again _)) (go r a)
  where
    again : (e : Endpoint) → Advances s (record r { source = e })
    again e = record {
      added = a.added;
      appended = a.appended;
      counted = a.counted;
      final = a.final;
    }

-- If `ackedPosition_` counts the bytes that were saved: whatever arrives, also from a sender that
-- does not keep to the protocol, bytes are only appended, `ackedPosition_` counts them, FIN is not
-- undone, and the one acknowledgement of a datagram that is answered carries the number of the
-- first missing byte.
pub step-Acknowledges :
    (mach : Machine) (r : Receiver) (a : Arrival) → IsCounted r → Acknowledges r (step mach r a)
unfolding step receive_packet
step-Acknowledges mach r (received p from) c =
    filter_loss-Acknowledges mach r _ from (got p) (counting r c) (λ q a.
      unfold act in Acknowledges-of_Answers r q p.seq_num _ a (respond-Answers mach q p a.counted))
step-Acknowledges mach r (failed from) c =
    filter_loss-Acknowledges mach r _ from skipped (counting r c) (λ q a. unfold act in a)
step-Acknowledges mach r raised c = unfold act in tt

-- Bytes only appended and counted, with FIN the reason to return.
abbrev pub IsSound : Receiver → Outcome → Type 0
IsSound r (waiting r' sent) = Advances r r' × (r'.fin ≡ false)
IsSound r (returned r' sent) = Advances r r' × (r'.fin ≡ true)
IsSound r returned_null = Unit {0}
IsSound r faulted = Unit {0}

IsSound-trans : (r s : Receiver) (o : Outcome) → Advances r s → IsSound s o → IsSound r o
IsSound-trans r s (waiting r' sent) a h = (Advances-trans a h.0, h.1)
IsSound-trans r s (returned r' sent) a h = (Advances-trans a h.0, h.1)
IsSound-trans r s returned_null a h = tt
IsSound-trans r s faulted a h = tt

Acknowledges-Advances :
    (r r' : Receiver) (acks : List Packet) → Acknowledges r (go_on r' acks) → Advances r r'
Acknowledges-Advances r r' [] h = h
Acknowledges-Advances r r' (a ∷ []) h = h.0
Acknowledges-Advances r r' (a ∷ b ∷ rest) h = absurd h

-- No byte is lost in a turn.
pub Acknowledges-longer :
    (r r' : Receiver) (acks : List Packet)
    → Acknowledges r (go_on r' acks)
    → length r.recv_data ≤ length r'.recv_data
Acknowledges-longer r r' acks h =
    let a = Acknowledges-Advances r r' acks h in
    omega (arith, ap length a.appended, length-append r.recv_data a.added)

follow-IsSound :
    (r : Receiver) (t : Turn) (next : Receiver → List Packet → Outcome)
    → Acknowledges r t
    → ((r' : Receiver) (acks : List Packet) → IsCounted r' → IsSound r' (next r' acks))
    → IsSound r (follow t next)
unfolding follow
follow-IsSound r (go_on r' acks) next k h =
    let a = Acknowledges-Advances r r' acks k in IsSound-trans r r' _ a (h r' acks a.counted)
follow-IsSound r give_up next k h = tt
follow-IsSound r undefined next k h = tt

-- If `ackedPosition_` counts the bytes that were saved: whatever arrives, `receive` returns its data
-- only with `fin_` set, and waits only while it is not. All along the bytes are only appended,
-- and `ackedPosition_` counts them.
pub receive_loop-IsSound :
    (mach : Machine) (r : Receiver) (sent : List Packet) (arrivals : List Arrival)
    → IsCounted r
    → IsSound r (receive_loop mach r sent arrivals)
unfolding receive_loop
receive_loop-IsSound mach r sent [] c = settled r.fin refl
  where
    settled : (b : Bool) → r.fin ≡ b → IsSound r (if b then returned r sent else waiting r sent)
    settled true e = (Advances-self r c, e)
    settled false e = (Advances-self r c, e)
receive_loop-IsSound mach r sent (a ∷ rest) c = settled _ r.fin refl (
    follow-IsSound r (step mach r a) _ (step-Acknowledges mach r a c)
      (λ r' acks c'. receive_loop-IsSound mach r' (sent ++ acks) rest c'))
  where
    settled :
        (o : Outcome) (b : Bool)
        → r.fin ≡ b
        → IsSound r o
        → IsSound r (elim b [ true ↦ returned r sent | false ↦ o ])
    settled o true e s = (Advances-self r c, e)
    settled o false e s = s
