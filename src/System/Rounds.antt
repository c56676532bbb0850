-- ===== src/System/Rounds.antt =====
-- One round of a transfer: after a timeout the sender sends one segment, it arrives, and so does its
-- acknowledgement.
use comnet.Base.{
  ℕ, ◌+◌, ◌≤◌, ◌≡◌, refl, sym, ap, ◌∙◌, subst, Bool, true, false, ◌||◌, List, [], ◌∷◌, ◌++◌, inl,
  inr, arith, length, length-take,
}
use comnet.Packet.{Packet}
use comnet.Segment.{IsSegment}
use comnet.Sender.{Sender, World}
use comnet.Sender.Segments.{bytes_at, length-bytes_at-le}
use comnet.Sender.Sync.{Suits}
use comnet.Sender.Replies.{reply, finished, normal}
use comnet.Sender.Replies
use comnet.Sender.Alone.{One, one_sent}
use comnet.Sender.Hears.{receive-new, receive-final}
use comnet.Receiver.{Receiver, Machine, Endpoint, received, step, go_on}
use comnet.Receiver.Direct.{Taken, step-Taken}
use comnet.System.{
  System, Among, Step, sends, hears, delivers, Reach, here, next, IsSafe, Step-IsSafe,
  Among-IsSegment,
}
use comnet.System.Restart.{IsInStep, Restarted}

-- From `y` the transfer can come to where an acknowledgement lets `transmit` return true.
pub record CanFinish (w : World) (mach : Machine) (y : System) : Type 0 where
  pub end_state : System
  pub last : Packet
  pub sender : Sender
  pub reached : Reach w mach y end_state
  pub heard : Among last end_state.acks
  pub returns : Replies.receive w end_state.sender (reply last) ≡ (sender, finished)

pub Reach-trans :
    {w : World} {mach : Machine} {x y z : System}
    → Reach w mach x y
    → Reach w mach y z
    → Reach w mach x z
Reach-trans r here = r
Reach-trans r (next q s) = next (Reach-trans r q) s

pub Among-last : (p : Packet) (ps : List Packet) → Among p (ps ++ p ∷ [])
Among-last p [] = inl refl
Among-last p (q ∷ qs) = inr (Among-last p qs)

module _ (w : World) (mach : Machine) (suits : Suits w) (works : (n : ℕ) → w.works n ≡ true)
    (from : Endpoint) where
  abbrev file : List ℕ
  file = w.disk.contents

  -- One round from there: the file is through, or both ends are one chunk further.
  pub record Further (y z : System) : Type 0 where
    pub reached : Reach w mach y z
    pub safe : IsSafe file z
    pub in_step : IsInStep z
    pub further : z.receiver.acked_position ≡ y.receiver.acked_position + 100

  module _ (y x : System) (h : Restarted w mach suits y x) where
    abbrev sent_one : (s' : Sender) × (p : Packet) × One w x.sender s' p
    sent_one = one_sent w suits works x.sender h.safe.synced h.ready h.one_segment h.none_out

    abbrev after_send : System
    after_send = record x { sender = sent_one.0 }

    abbrev pub datagram : Packet
    datagram = sent_one.1

    abbrev one : One w x.sender after_send.sender datagram
    one = sent_one.2

    sending : Step w mach x after_send
    sending = sends {y = x} sent_one.0 one.filled

    among : Among datagram after_send.sender.sent
    among = subst (Among datagram) (sym one.sent) (Among-last datagram x.sender.sent)

    segment : IsSegment file datagram
    segment =
        Among-IsSegment file datagram after_send.sender.sent
          (Step-IsSafe w mach suits sending h.safe).synced.segments among

    abbrev taken :
        (r' : Receiver) × (ack : Packet) × (step mach x.receiver (received datagram from)
          ≡ go_on r' (ack ∷ []))
        × Taken x.receiver datagram r' ack
    taken =
        step-Taken mach x.receiver datagram from h.in_step.direct
          (omega (arith, one.seq_num, h.place)) segment.short
          (omega (
            arith,
            one.seq_num,
            h.place,
            segment.chunk.inside,
            segment.short,
            length-take datagram.data_len datagram.payload,
            suits.text.small,
          ))

    abbrev answer : Packet
    answer = taken.1

    abbrev turn : Taken x.receiver datagram taken.0 answer
    turn = taken.3

    abbrev arrived : System
    arrived = record after_send { receiver = taken.0; acks = answer ∷ x.acks }

    arriving : Step w mach after_send arrived
    arriving =
        delivers {y = after_send} datagram from taken.0 (answer ∷ []) among h.in_step.running
          taken.2

    so_far : Reach w mach y arrived
    so_far = Reach-trans h.reached (next (next here sending) arriving)

    pub finishes : datagram.fin ≡ true → CanFinish w mach y
    finishes last = record {
      end_state = arrived;
      last = answer;
      sender = after_send.sender;
      reached = so_far;
      heard = inl refl;
      returns = receive-final w after_send.sender answer turn.flag final;
    }
      where
        final : answer.fin ≡ true
        final = turn.final ∙ turn.fin ∙ ap (λ b. x.receiver.fin || b) last ∙ always x.receiver.fin
          where
            always : (b : Bool) → (b || true) ≡ true
            always true = refl
            always false = refl

    pub goes_on : datagram.fin ≡ false → (z : System) × Further x z
    goes_on more = (
      z,
      record {
        reached = next (next (next here sending) arriving) hearing;
        safe = Step-IsSafe w mach suits hearing arrived_safe;
        in_step = record { together = heard.2 ∙ number; direct = turn.direct; running = still };
        further = place;
      },
    )
      where
        full : length (bytes_at w.disk x.sender.file_position) ≡ 100
        full =
            ground (
              arith,
              length-bytes_at-le w.disk suits.text x.sender.file_position,
              sym one.fin ∙ more,
            )

        arrived_safe : IsSafe file arrived
        arrived_safe = Step-IsSafe w mach suits arriving (Step-IsSafe w mach suits sending h.safe)

        place : taken.0.acked_position ≡ x.receiver.acked_position + 100
        place = omega (arith, turn.acked, one.data_len, full)

        number : answer.ack_num ≡ taken.0.acked_position + 1
        number = omega (arith, turn.number, arrived_safe.prefix.fits, suits.text.small)

        still : taken.0.fin ≡ false
        still = turn.fin ∙ ap (λ b. b || datagram.fin) h.in_step.running ∙ more

        heard :
            (s : Sender) × (Replies.receive w after_send.sender (reply answer) ≡ (s, normal))
            × (s.acked_position ≡ answer.ack_num)
        heard =
            receive-new w after_send.sender answer (one.state ∙ h.starting) turn.flag
              (turn.final ∙ still) (omega (arith, one.acked, h.in_step.together, number, place))

        on_time :
            arrived.sender.message.failing ≡ false
            → answer.ack_num ≤ arrived.sender.message.position + 1
        on_time e = omega (arith, number, place, one.position, h.place, full)

        z : System
        z = record arrived { sender = heard.0 }

        hearing : Step w mach arrived z
        hearing = hears {y = arrived} answer heard.0 (inl refl) on_time heard.1
