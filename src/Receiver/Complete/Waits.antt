-- ===== src/Receiver/Complete/Waits.antt =====
-- What a receiver that simulates no loss still waits for.
use comnet.Base.{
  Bool, ℕ, ◌+◌, ◌<◌, ◌^◌, ◌≡◌, refl, sym, ap, ◌∙◌, subst, false, List, [], ◌∷◌, ◌++◌, inl, inr,
  Bool-cases, length, u32,
}
use comnet.Packet.{Packet}
use comnet.Receiver.{
  Receiver, Machine, Arrival, received, failed, raised, Turn, go_on, give_up, undefined, Outcome,
  waiting, returned, returned_null, faulted, find, receive_packet, act, step, follow, receive_loop,
}
use comnet.Receiver.Delivery.{IsPrefix, AllCarry}
use comnet.Receiver.Direct.{filtered_failed}
use comnet.Receiver.Complete.Buffer.{Chain, start, NoneDue, AllHandled-NoneDue}
use comnet.Receiver.Complete.Turns.{IsTidy, IsIdle, next_position}
use comnet.Receiver.Complete.Responds.{Tidies, noted-IsTidy, step-Tidies}

-- A receiver that has received nothing and simulates no loss.
pub record IsAtStart (r : Receiver) : Type 0 where
  pub steady : r.periodic ≡ false
  pub unspecific : r.specific ≡ false
  pub nothing_early : r.buffer ≡ []
  pub unacked : r.acked_position ≡ 0
  pub running : r.fin ≡ false

-- What has come, the last one first.
abbrev pub came : List Packet → List Arrival → List Packet
came ps [] = ps
came ps (received p from ∷ rest) = came (p ∷ ps) rest
came ps (failed from ∷ rest) = came ps rest
came ps (raised ∷ rest) = came ps rest

module _ (file : List ℕ) (small : length file < 2 ^ 31) (span : ℕ → ℕ) (final : ℕ → Bool) where
  follow_raised :
      (mach : Machine) (r : Receiver) (next : Receiver → List Packet → Outcome)
      → follow (step mach r raised) next ≡ returned_null
  unfolding follow step receive_packet act
  follow_raised mach r next = refl

  abbrev pub Spans : List Arrival → Type 0
  Spans [] = Unit {0}
  Spans (received p from ∷ rest) =
      (p.data_len ≡ span p.seq_num) × (p.fin ≡ final p.seq_num) × Spans rest
  Spans (failed from ∷ rest) = Spans rest
  Spans (raised ∷ rest) = Spans rest

  -- A receiver that waits has nothing left to hand over.
  abbrev pub Waits : List Packet → Outcome → Type 0
  Waits ps (waiting r sent) =
      NoneDue span final r.acked_position ps × Chain span final r.acked_position false
  Waits ps (returned r sent) = Unit {0}
  Waits ps returned_null = Unit {0}
  Waits ps faulted = ⊥

  follow-Waits :
      (ps all : List Packet) (t : Turn) (next : Receiver → List Packet → Outcome)
      → Tidies file small span final ps t
      → ((r : Receiver) (acks : List Packet)
          → IsTidy file small span final ps r
          → IsIdle file small span final r
          → Waits all (next r acks))
      → Waits all (follow t next)
  unfolding follow
  follow-Waits ps all (go_on r acks) next t h = h r acks t.0 t.1
  follow-Waits ps all give_up next t h = absurd t
  follow-Waits ps all undefined next t h = absurd t

  receive_loop-Waits :
      (mach : Machine) (ps : List Packet) (arrivals : List Arrival) (r : Receiver)
      (sent : List Packet)
      → AllCarry file small arrivals
      → Spans arrivals
      → IsTidy file small span final ps r
      → IsIdle file small span final r
      → Waits (came ps arrivals) (receive_loop mach r sent arrivals)
  unfolding receive_loop
  receive_loop-Waits mach ps [] r sent c s t idle = elim (Bool-cases r.fin) [
    | inl done ↦ rw (done, receive_loop) tt
    | inr more ↦
        rw (more, receive_loop)
          (
            AllHandled-NoneDue span final r.acked_position r.fin r.buffer ps
                (ap (λ k. find k r.buffer) (sym (next_position file small span final r t.prefix))
                  ∙ idle)
                more t.handled,
            subst (Chain span final r.acked_position) more t.chain,
          )
  ]
  receive_loop-Waits mach ps (raised ∷ rest) r sent c s t idle = elim (Bool-cases r.fin) [
    | inl done ↦ rw (done, receive_loop) tt
    | inr more ↦ rw (more, receive_loop) (subst (Waits _) (sym (follow_raised mach r _)) tt)
  ]
  receive_loop-Waits mach ps (failed from ∷ rest) r sent c s t idle = elim (Bool-cases r.fin) [
    | inl done ↦ rw (done, receive_loop) tt
    | inr more ↦
        rw (more, receive_loop)
          (follow-Waits ps (came ps rest) (step mach r (failed from)) _
            (subst (Tidies file small span final ps)
              (sym (filtered_failed mach r from t.steady t.unspecific))
              (noted-IsTidy file small span final ps r from t idle))
            (λ r' acks t' idle'. receive_loop-Waits mach ps rest r' (sent ++ acks) c.1 s t' idle'))
  ]
  receive_loop-Waits mach ps (received p from ∷ rest) r sent c s t idle = elim (Bool-cases r.fin) [
    | inl done ↦ rw (done, receive_loop) tt
    | inr more ↦
        rw (more, receive_loop)
          (follow-Waits (p ∷ ps) (came (p ∷ ps) rest) (step mach r (received p from)) _
            (step-Tidies file small span final mach ps r p from t idle c.0 s.0 s.1)
            (λ r' acks t' idle'.
              receive_loop-Waits mach (p ∷ ps) rest r' (sent ++ acks) c.1 s.2 t' idle'))
  ]

  -- Where a receiver that starts with nothing still waits, no datagram that came has bytes or FIN for
  -- the position that is due.
  pub receive-Waits :
      (mach : Machine) (r : Receiver) (arrivals : List Arrival)
      → IsPrefix file r
      → IsAtStart r
      → AllCarry file small arrivals
      → Spans arrivals
      → Waits (came [] arrivals) (receive_loop mach r [] arrivals)
  receive-Waits mach r arrivals v h c s = receive_loop-Waits mach [] arrivals r [] c s tidy idle
    where
      tidy : IsTidy file small span final [] r
      tidy = record {
        prefix = v;
        steady = h.steady;
        unspecific = h.unspecific;
        sized = rw h.nothing_early tt;
        handled = tt;
        chain =
            subst (λ a. Chain span final a r.fin) (sym h.unacked)
              (subst (Chain span final 0) (sym h.running) start);
      }

      idle : IsIdle file small span final r
      idle = ap (λ m. find (u32 (r.acked_position + 1)) m) h.nothing_early ∙ unfold find in refl
