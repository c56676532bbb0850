-- ===== src/Receiver/Main/Null.antt =====
-- When `receive` returns NULL.
use comnet.Base.{◌+◌, ◌≢◌, refl, List, [], ◌∷◌, ◌++◌, inl, inr, Bool-cases, Option-cases, ltb, u32}
use comnet.Packet.{Packet}
use comnet.Receiver.Loss.{filter_loss_cases}
use comnet.Receiver.{
  Receiver, Machine, Arrival, received, failed, raised, got, skipped, Turn, go_on, give_up,
  undefined, Outcome, waiting, returned, returned_null, faulted, receive_loop, follow, step,
  receive_packet, act, respond, process_packet,
}

-- The call of `recvFrom` throws at some time.
abbrev pub Raises : List Arrival → Type 0
Raises [] = ⊥
Raises (received p from ∷ rest) = Raises rest
Raises (failed from ∷ rest) = Raises rest
Raises (raised ∷ rest) = Unit {0}

-- `receive` returns NULL only for that.
abbrev pub EndsNull : List Arrival → Outcome → Type 0
EndsNull arrivals (waiting r sent) = Unit {0}
EndsNull arrivals (returned r sent) = Unit {0}
EndsNull arrivals returned_null = Raises arrivals
EndsNull arrivals faulted = Unit {0}

abbrev GoesOn : Turn → Type 0
GoesOn (go_on r acks) = Unit {0}
GoesOn give_up = ⊥
GoesOn undefined = Unit {0}

respond-GoesOn : (mach : Machine) (r : Receiver) (p : Packet) → GoesOn (respond mach r p)
unfolding respond
respond-GoesOn mach r p = elim (Bool-cases (ltb (u32 (r.acked_position + 1)) p.seq_num)) [
  | inl early ↦ rw early tt
  | inr due ↦ elim (Bool-cases (ltb p.seq_num (u32 (r.acked_position + 1)))) [
    | inl late ↦ rw (due, late) tt
    | inr now ↦ elim (Option-cases (process_packet r p)) [
      | inl e ↦ rw (due, now, e) tt
      | inr (q, e) ↦ rw (due, now, e) tt
    ]
  ]
]

step-GoesOn : (mach : Machine) (r : Receiver) (a : Arrival) → a ≢ raised → GoesOn (step mach r a)
unfolding step receive_packet act
step-GoesOn mach r (received p from) h =
    filter_loss_cases (λ out. GoesOn (act mach out.0 out.1)) mach _ from (got p) tt tt
      (respond-GoesOn mach _ p) (respond-GoesOn mach _ p)
step-GoesOn mach r (failed from) h =
    filter_loss_cases (λ out. GoesOn (act mach out.0 out.1)) mach _ from skipped tt tt tt tt
step-GoesOn mach r raised h = h refl

cons-Raises : (a : Arrival) (rest : List Arrival) → Raises rest → Raises (a ∷ rest)
cons-Raises (received p from) rest h = h
cons-Raises (failed from) rest h = h
cons-Raises raised rest h = tt

cons-EndsNull :
    (a : Arrival) (rest : List Arrival) (out : Outcome)
    → EndsNull rest out
    → EndsNull (a ∷ rest) out
cons-EndsNull a rest (waiting r sent) h = tt
cons-EndsNull a rest (returned r sent) h = tt
cons-EndsNull a rest returned_null h = cons-Raises a rest h
cons-EndsNull a rest faulted h = tt

raised-EndsNull : (rest : List Arrival) (out : Outcome) → EndsNull (raised ∷ rest) out
raised-EndsNull rest (waiting r sent) = tt
raised-EndsNull rest (returned r sent) = tt
raised-EndsNull rest returned_null = tt
raised-EndsNull rest faulted = tt

follow-EndsNull :
    (arrivals : List Arrival) (t : Turn) (next : Receiver → List Packet → Outcome)
    → GoesOn t
    → ((r : Receiver) (acks : List Packet) → EndsNull arrivals (next r acks))
    → EndsNull arrivals (follow t next)
unfolding follow
follow-EndsNull arrivals (go_on r acks) next g h = h r acks
follow-EndsNull arrivals give_up next g h = absurd g
follow-EndsNull arrivals undefined next g h = tt

turn-EndsNull :
    (mach : Machine) (r : Receiver) (sent : List Packet) (a : Arrival) (rest : List Arrival)
    → GoesOn (step mach r a)
    → ((r' : Receiver) (sent' : List Packet) → EndsNull rest (receive_loop mach r' sent' rest))
    → EndsNull (a ∷ rest) (receive_loop mach r sent (a ∷ rest))
unfolding receive_loop
turn-EndsNull mach r sent a rest g h = elim (Bool-cases r.fin) [
  | inl done ↦ rw (done, receive_loop) tt
  | inr more ↦
      rw (more, receive_loop)
        (cons-EndsNull a rest _
          (follow-EndsNull rest (step mach r a) _ g (λ r' acks. h r' (sent ++ acks))))
]

pub receive_loop-EndsNull :
    (mach : Machine) (arrivals : List Arrival) (r : Receiver) (sent : List Packet)
    → EndsNull arrivals (receive_loop mach r sent arrivals)
unfolding receive_loop
receive_loop-EndsNull mach [] r sent = elim (Bool-cases r.fin) [
  | inl done ↦ rw done tt
  | inr more ↦ rw more tt
]
receive_loop-EndsNull mach (received p from ∷ rest) r sent =
    turn-EndsNull mach r sent (received p from) rest
      (step-GoesOn mach r (received p from) (λ e. cc)) (receive_loop-EndsNull mach rest)
receive_loop-EndsNull mach (failed from ∷ rest) r sent =
    turn-EndsNull mach r sent (failed from) rest (step-GoesOn mach r (failed from) (λ e. cc))
      (receive_loop-EndsNull mach rest)
receive_loop-EndsNull mach (raised ∷ rest) r sent = raised-EndsNull rest _
