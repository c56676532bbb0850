-- ===== src/Receiver/Delivery.antt =====
-- What `receive` delivers when the datagrams carry segments of one file.
mod Prefix
mod Beyond
pub use comnet.Receiver.Delivery.Prefix.{
  IsPrefix, Carries, find-IsChunk, erase-Buffered, extend, store_early_data-IsPrefix,
}
use comnet.Receiver.Delivery.Prefix.{process_packet-IsPrefix, check_early_loop-IsPrefix}
use comnet.Receiver.Delivery.Beyond.{other, step-other}
use comnet.Base.{
  if◌then◌else◌, ap, refl, ◌∙◌, refl, ℕ, ◌+◌, ◌-◌, ◌^◌, ◌<◌, ◌≡◌, ◌∙◌, true, List, [], ◌∷◌, ◌++◌,
  inl, inr, arith, Bool-cases, ltb, length, take_all, u32,
}
use comnet.Receiver.Loss.{filter_loss_cases}
use comnet.Packet.{Packet}
use comnet.Segment.{IsSegment}
use comnet.Receiver.{
  initial, Receiver, Machine, Endpoint, Arrival, received, failed, raised, Reading, got, skipped,
  Turn, go_on, give_up, undefined, Outcome, waiting, returned, returned_null, faulted, filter_loss,
  receive_packet, check_early_data, respond, act, step, receive_loop, follow, receive,
}

module _ (file : List ℕ) (small : length file < 2 ^ 31) where
  -- A turn in which `saveData` reads past no packet, and that leaves the receiver with a prefix.
  abbrev pub Keeps : Turn → Type 0
  Keeps (go_on r acks) = IsPrefix file r
  Keeps give_up = Unit {0}
  Keeps undefined = ⊥

  pub respond-Keeps :
      (mach : Machine) (r : Receiver) (p : Packet)
      → IsPrefix file r
      → IsSegment file p
      → Keeps (respond mach r p)
  unfolding respond check_early_data
  respond-Keeps mach r p v s = elim (Bool-cases (ltb (u32 (r.acked_position + 1)) p.seq_num)) [
    | inl early ↦ rw early (store_early_data-IsPrefix file small mach r p v s)
    | inr timely ↦ elim (Bool-cases (ltb p.seq_num (u32 (r.acked_position + 1)))) [
      | inl old ↦ rw (timely, old) v
      | inr due ↦
          let (r', e, v') = process_packet-IsPrefix file small r p v s (ground arith) in
          rw (timely, due, e) (check_early_loop-IsPrefix file small (length r'.buffer) r' v')
    ]
  ]

  filter_loss-Keeps :
      (mach : Machine) (r : Receiver) (from : Endpoint) (reading : Reading)
      → IsPrefix file r
      → ((q : Receiver) → IsPrefix file q → Keeps (act mach q reading))
      → Keeps (act mach (filter_loss mach r from reading).0 (filter_loss mach r from reading).1)
  filter_loss-Keeps mach r from reading v go =
      filter_loss_cases (λ out. Keeps (act mach out.0 out.1)) mach r from reading (unfold act in v)
        (unfold act in record { fits = v.fits; held = v.held; early = v.early; ended = v.ended })
        (go _ (record { fits = v.fits; held = v.held; early = v.early; ended = v.ended })) (go r v)

  counted : (r : Receiver) → IsPrefix file r → IsPrefix file (record r { rsn = r.rsn + 1 })
  counted r v = record { fits = v.fits; held = v.held; early = v.early; ended = v.ended }

  -- Whatever arrives, provided that it carries segments of the file, `saveData`
  -- reads past no packet in a turn, and the receiver holds a prefix of the file afterwards.
  pub step-Keeps :
      (mach : Machine) (r : Receiver) (a : Arrival)
      → IsPrefix file r
      → Carries file a
      → Keeps (step mach r a)
  unfolding step receive_packet act
  step-Keeps mach r (received p from) v s =
      filter_loss-Keeps mach _ from (got p) (counted r v) (λ q w. respond-Keeps mach q p w s)
  step-Keeps mach r (failed from) v s =
      filter_loss-Keeps mach _ from skipped (counted r v) (λ q w. w)
  step-Keeps mach r raised v s = tt

  abbrev pub AllCarry : List Arrival → Type 0
  AllCarry [] = Unit {0}
  AllCarry (a ∷ rest) = Carries file a × AllCarry rest

  abbrev pub Delivers : Outcome → Type 0
  Delivers (waiting r sent) = IsPrefix file r
  Delivers (returned r sent) = r.recv_data ≡ file
  Delivers returned_null = Unit {0}
  Delivers faulted = ⊥

  pub complete : (r : Receiver) → IsPrefix file r → r.fin ≡ true → r.recv_data ≡ file
  complete r v e = v.held ∙ take_all r.acked_position file (omega (arith, v.ended e))

  pub initial-IsPrefix : IsPrefix file (record initial { opened = true })
  unfolding initial
  initial-IsPrefix = record { fits = omega arith; held = refl; early = tt; ended = λ e. cc }

  follow-Delivers :
      (t : Turn) (next : Receiver → List Packet → Outcome)
      → Keeps t
      → ((r : Receiver) (acks : List Packet) → IsPrefix file r → Delivers (next r acks))
      → Delivers (follow t next)
  unfolding follow
  follow-Delivers (go_on r acks) next k h = h r acks k
  follow-Delivers give_up next k h = tt
  follow-Delivers undefined next k h = absurd k

  receive_loop-Delivers :
      (mach : Machine) (r : Receiver) (sent : List Packet) (arrivals : List Arrival)
      → IsPrefix file r
      → AllCarry arrivals
      → Delivers (receive_loop mach r sent arrivals)
  unfolding receive_loop
  receive_loop-Delivers mach r sent [] v s = ground (arith, complete r v)
  receive_loop-Delivers mach r sent (a ∷ rest) v s = elim (Bool-cases r.fin) [
    | inl done ↦ rw (done, receive_loop) (complete r v done)
    | inr more ↦
        rw (more, receive_loop)
          (follow-Delivers (step mach r a) _ (step-Keeps mach r a v s.0)
            (λ r' acks w. receive_loop-Delivers mach r' (sent ++ acks) rest w s.1))
  ]

  receive_loop-other :
      (mach : Machine) (past : List ℕ) (r : Receiver) (sent : List Packet) (arrivals : List Arrival)
      → AllCarry arrivals
      → receive_loop (other file mach past) r sent arrivals ≡ receive_loop mach r sent arrivals
  unfolding receive_loop
  receive_loop-other mach past r sent [] s = refl
  receive_loop-other mach past r sent (a ∷ rest) s = elim (Bool-cases r.fin) [
    | inl done ↦ rw (done, receive_loop) refl
    | inr more ↦
        rw (more, receive_loop)
          (ap
              (λ t.
                follow t (λ r' acks. receive_loop (other file mach past) r' (sent ++ acks) rest))
              (step-other file mach past r a s.0)
            ∙ λ i.
                follow (step mach r a)
                  λ r' acks. receive_loop-other mach past r' (sent ++ acks) rest s.1 i)
  ]

  -- For a file below 2 ^ 31 bytes and a receiver that holds a prefix of it: whatever arrives, if all
  -- datagrams carry segments of the file, in any order and any number of times, `receive` hands over
  -- the whole file and nothing else, if it hands over anything, and until then it holds a prefix
  -- of the file. On the way `saveData` reads past no packet; `storeEarlyData` may, and whatever lies
  -- behind `packet` in memory makes no difference to anything.
  pub receive-Delivers :
      (mach : Machine) (r : Receiver) (arrivals : List Arrival)
      → IsPrefix file r
      → AllCarry arrivals
      → Delivers (receive mach r arrivals)
        × ((past : List ℕ)
            → receive (record mach { past_packet = past }) r arrivals ≡ receive mach r arrivals)
  unfolding receive
  receive-Delivers mach r arrivals v s = (
    ground (arith, receive_loop-Delivers mach r [] arrivals v s),
    λ past.
        ap (λ o. if r.opened then o else returned_null)
          (receive_loop-other mach past r [] arrivals s),
  )
