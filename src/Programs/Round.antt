-- ===== src/Programs/Round.antt =====
-- One round of the two programs: a timeout, one datagram and its acknowledgement.
use comnet.Base.{
  ◌⊎◌, ℕ, ◌+◌, ◌≤◌, ◌≡◌, sym, ap, ◌∙◌, subst, true, false, ◌||◌, List, [], ◌∷◌, ◌++◌, inl, inr,
  arith, length-take, Bool-cases,
}
use comnet.Packet.{Packet}
use comnet.Sender.{Sender, World, going}
use comnet.Sender.Sync.{IsSynced, Suits}
use comnet.Sender.Window.{fill_window}
use comnet.Sender.Closed.{After, receive-After}
use comnet.Sender.Replies.{Reply, nothing, reply, normal, receive, waiting, returned, decide, await}
use comnet.Sender.Going.{fill_window-going}
use comnet.Sender.Hears.{receive-new, receive-final}
use comnet.Sender.Main.{exit_of}
use comnet.Sender.Main
use comnet.Receiver.{Receiver, Arrival, Endpoint, received, step, go_on}
use comnet.Receiver.Delivery.{IsPrefix}
use comnet.Receiver.Direct.{IsDirect, Taken, step-Taken}
use comnet.Receiver.Main as Output
use comnet.Receiver.Main.Takes.{receiver_main-waits, receiver_main-ends}
use comnet.System.{Among}
use comnet.System.Rounds.{Among-last}
use comnet.Programs.{Setting, there, receiving, transmitting, acks_of, Exchange, hears, delivers}
use comnet.Programs.Sending.{after_reply, transmitting-append, sending-append}
use comnet.Programs.Abreast.{
  IsAbreast, IsSent, sending-IsSynced, receiving-IsPrefix, receiving-running, restarts,
}

-- What comes in a round.
abbrev pub next_replies : List Reply → Packet → List Reply
next_replies replies ack = (replies ++ nothing ∷ []) ++ reply ack ∷ []

module _ (g : Setting) (suits : Suits (there g)) (works : (n : ℕ) → (there g).works n ≡ true)
    (from : Endpoint) where
  abbrev file : List ℕ
  file = (there g).disk.contents

  abbrev w : World
  w = there g

  -- The segment arrives, and its acknowledgement is heard.
  module _ (replies : List Reply) (arrivals : List Arrival) (r : Receiver) (acks : List Packet)
      (receives : receiving g arrivals ≡ Output.waits r acks) (direct : IsDirect r)
      (sender : Sender) (datagram : Packet)
      (sent : IsSent g replies arrivals r sender datagram) where
    prefix : IsPrefix file r
    prefix = receiving-IsPrefix g suits replies arrivals r acks sent.run receives

    abbrev arrivals_1 : List Arrival
    arrivals_1 = arrivals ++ received datagram from ∷ []

    run_2 : Exchange g replies arrivals_1
    run_2 = delivers datagram from sent.run sent.among

    abbrev taken :
        (r' : Receiver) × (ack : Packet) × (step g.machine r (received datagram from)
          ≡ go_on r' (ack ∷ []))
        × Taken r datagram r' ack
    taken = step-Taken g.machine r datagram from direct sent.due sent.segment.short (
        omega (
          arith,
          sent.due,
          prefix.fits,
          sent.segment.chunk.inside,
          sent.segment.short,
          length-take datagram.data_len datagram.payload,
          suits.text.small,
        ))

    abbrev receiver : Receiver
    receiver = taken.0

    abbrev answer : Packet
    answer = taken.1

    abbrev turn : Taken r datagram receiver answer
    turn = taken.3

    fin_lem : receiver.fin ≡ datagram.fin
    fin_lem =
        turn.fin
        ∙ ap (λ b. b || datagram.fin)
            (receiving-running g suits replies arrivals r acks sent.run receives)

    -- The last one: the receiver prints, and `transmit` returns true.
    ends :
        datagram.fin ≡ true
        → Exchange g (replies ++ reply answer ∷ []) arrivals_1
          × (transmitting g (replies ++ reply answer ∷ []) ≡ returned true sender)
    ends last = (
      hears answer sender run_2 sent.sends
          (subst (λ out. Among answer (acks_of out)) (sym printed) (Among-last answer acks))
          (λ e. cc (sent.failing, last, e)),
      transmitting-append g sender replies (reply answer) sent.sends ∙ finishes,
    )
      where
        printed :
            receiving g arrivals_1
            ≡ Output.prints (receiver.recv_data ++ b'\n' ∷ []) (acks ++ answer ∷ [])
        printed =
            receiver_main-ends g.machine g.opens r receiver acks (answer ∷ []) arrivals
              (received datagram from) taken.2 g.disks g.local_port g.loss receives (fin_lem ∙ last)

        finishes : after_reply w sender (reply answer) ≡ returned true sender
        finishes =
            unfold decide in
            ap (λ out. decide out λ s'. await (fill_window w s') waiting)
              (receive-final w sender answer turn.flag (turn.final ∙ fin_lem ∙ last))

    -- One more: both are a chunk further.
    goes_on :
        datagram.fin ≡ false
        → (s' : Sender) × IsAbreast g
            (replies ++ reply answer ∷ [])
            arrivals_1
            s'
            receiver
            (acks ++ answer ∷ [])
          × (receiver.acked_position ≡ r.acked_position + 100)
    goes_on more = (
      filled.0,
      record {
        run = run_3;
        sends = sending-append g sender replies (reply answer) sent.sends ∙ fills;
        receives = still;
        together = filled.2 ∙ heard.2 ∙ number;
        direct = turn.direct;
      },
      step_on,
    )
      where
        still : receiving g arrivals_1 ≡ Output.waits receiver (acks ++ answer ∷ [])
        still =
            receiver_main-waits g.machine g.opens r receiver acks (answer ∷ []) arrivals
              (received datagram from) taken.2 g.disks g.local_port g.loss receives (fin_lem ∙ more)

        step_on : receiver.acked_position ≡ r.acked_position + 100
        step_on = omega (arith, turn.acked, sent.full more)

        after_prefix : IsPrefix file receiver
        after_prefix =
            receiving-IsPrefix g suits replies arrivals_1 receiver (acks ++ answer ∷ []) run_2 still

        number : answer.ack_num ≡ receiver.acked_position + 1
        number = omega (arith, turn.number, after_prefix.fits, suits.text.small)

        on_time : sender.message.failing ≡ false → answer.ack_num ≤ sender.message.position + 1
        on_time e = omega (arith, number, step_on, sent.position, sent.full more)

        run_3 : Exchange g (replies ++ reply answer ∷ []) arrivals_1
        run_3 =
            hears answer sender run_2 sent.sends
              (subst (λ out. Among answer (acks_of out)) (sym still) (Among-last answer acks))
              on_time

        heard :
            (s' : Sender) × (receive w sender (reply answer) ≡ (s', normal))
            × (s'.acked_position ≡ answer.ack_num)
        heard =
            receive-new w sender answer sent.starting turn.flag (turn.final ∙ fin_lem ∙ more)
              (omega (arith, sent.acked, number, step_on))

        after_synced : IsSynced file heard.0
        after_synced = subst (After w suits) heard.1 (
            receive-After w suits sender (reply answer)
              (sending-IsSynced g suits replies arrivals sender sent.run sent.sends)
              (record { within = omega (arith, number, after_prefix.fits); not_late = on_time }))

        filled :
            (s' : Sender) × (fill_window w heard.0 ≡ going s')
            × (s'.acked_position ≡ heard.0.acked_position)
        filled = fill_window-going w suits works heard.0 after_synced

        fills : exit_of (after_reply w sender (reply answer)) ≡ Main.waits filled.0
        fills =
            unfold decide await exit_of in
            ap (λ out. exit_of (decide out λ s'. await (fill_window w s') waiting)) heard.1
            ∙ ap (λ p. exit_of (await p waiting)) filled.1

  -- A round from where both wait, whichever it is, with its datagram and its acknowledgement.
  pub round :
      (replies : List Reply) (arrivals : List Arrival) (s : Sender) (r : Receiver)
      (acks : List Packet)
      → IsAbreast g replies arrivals s r acks
      → (p : Packet) × (ack : Packet) × (((s' : Sender) × Exchange g
              (next_replies replies ack)
              (arrivals ++ received p from ∷ [])
            × (transmitting g (next_replies replies ack) ≡ returned true s'))
          ⊎ ((s' : Sender) × (r' : Receiver) × IsAbreast g
                (next_replies replies ack)
                (arrivals ++ received p from ∷ [])
                s'
                r'
                (acks ++ ack ∷ [])
              × (r'.acked_position ≡ r.acked_position + 100)))
  round replies arrivals s r acks h =
      let (s', p, sent) = restarts g suits works replies arrivals s r acks h in
      let further = replies ++ nothing ∷ [] in
      (
        p,
        answer further arrivals r acks h.receives h.direct s' p sent,
        elim (Bool-cases p.fin) [
          | inl last ↦
              (let (run, returns) =
                  ends further arrivals r acks h.receives h.direct s' p sent last in
                inl (s', run, returns))
          | inr more ↦
              (let (s'', h', on) =
                  goes_on further arrivals r acks h.receives h.direct s' p sent more in
                inr (s'', receiver further arrivals r acks h.receives h.direct s' p sent, h', on))
        ],
      )
