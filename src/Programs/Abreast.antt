-- ===== src/Programs/Abreast.antt =====
-- Two programs that wait for each other, and what a timeout then does.
use comnet.Base.{ℕ, ◌+◌, ◌≡◌, refl, sym, ap, ◌∙◌, subst, true, false, List, [], ◌∷◌, ◌++◌, arith}
use comnet.Base.Int.{pos}
use comnet.Packet.{Packet}
use comnet.Segment.{IsSegment}
use comnet.Sender.{slow_start, Sender, World}
use comnet.Sender.Segments.{length-bytes_at-le}
use comnet.Sender.Sync.{IsSynced, Suits}
use comnet.Sender.Window.{process_timeout}
use comnet.Sender.Resending.{process_timeout-works, process_timeout-IsSynced}
use comnet.Sender.Replies.{Reply, nothing, receive, waiting, decide, await}
use comnet.Sender.Alone.{One, one_sent}
use comnet.Sender.Main.{exit_of}
use comnet.Sender.Main
use comnet.Receiver.{Receiver, Arrival, initial}
use comnet.Receiver.Delivery.{IsPrefix}
use comnet.Receiver.Direct.{IsDirect}
use comnet.Receiver.Pattern.{open_loss_pattern}
use comnet.Receiver.Main as Output
use comnet.Receiver.Main.Prints.{Prints}
use comnet.Receiver.Main.Speaks.{Speaks, receiver_main-Speaks}
use comnet.System.{Among}
use comnet.System.Rounds.{Among-last}
use comnet.Programs.{Setting, there, sending, receiving, sent_of, Exchange, times_out}
use comnet.Programs.Sending.{after_reply, sending-append, Holds}
use comnet.Programs.Joined.{Holds-segment, Exchange-kept, programs-Prints}

-- Both programs wait, and the sender knows how far the receiver has come, which drops nothing and
-- keeps nothing early.
pub record IsAbreast (g : Setting) (replies : List Reply) (arrivals : List Arrival) (s : Sender)
    (r : Receiver) (acks : List Packet) : Type 0 where
  pub run : Exchange g replies arrivals
  pub sends : sending g replies ≡ Main.waits s
  pub receives : receiving g arrivals ≡ Output.waits r acks
  pub together : s.acked_position ≡ r.acked_position + 1
  pub direct : IsDirect r

-- After a timeout: the sender has sent the one segment that the receiver misses.
pub record IsSent (g : Setting) (replies : List Reply) (arrivals : List Arrival) (r : Receiver)
    (s : Sender) (p : Packet) : Type 0 where
  pub run : Exchange g replies arrivals
  pub sends : sending g replies ≡ Main.waits s
  pub among : Among p (sent_of (sending g replies))
  pub segment : IsSegment (there g).disk.contents p
  pub due : p.seq_num ≡ r.acked_position + 1
  pub starting : s.state ≡ slow_start
  pub acked : s.acked_position ≡ r.acked_position + 1
  pub failing : s.message.failing ≡ p.fin
  pub position : s.message.position ≡ r.acked_position + p.data_len
  pub full : p.fin ≡ false → p.data_len ≡ 100

module _ (g : Setting) (suits : Suits (there g)) where
  abbrev file : List ℕ
  file = (there g).disk.contents

  abbrev w : World
  w = there g

  pub sending-IsSynced :
      (replies : List Reply) (arrivals : List Arrival) (s : Sender)
      → Exchange g replies arrivals
      → sending g replies ≡ Main.waits s
      → IsSynced file s
  sending-IsSynced replies arrivals s run e = subst (Holds file) e (Exchange-kept g suits run).0

  pub receiving-IsPrefix :
      (replies : List Reply) (arrivals : List Arrival) (r : Receiver) (acks : List Packet)
      → Exchange g replies arrivals
      → receiving g arrivals ≡ Output.waits r acks
      → IsPrefix file r
  receiving-IsPrefix replies arrivals r acks run e =
      subst (Prints file (open_loss_pattern (g.disks g.loss) initial) g.opens arrivals) e
        (programs-Prints g suits run)

  pub receiving-running :
      (replies : List Reply) (arrivals : List Arrival) (r : Receiver) (acks : List Packet)
      → Exchange g replies arrivals
      → receiving g arrivals ≡ Output.waits r acks
      → r.fin ≡ false
  receiving-running replies arrivals r acks run e =
      (subst (Speaks file) e (
        receiver_main-Speaks g.machine g.opens file suits.text.small arrivals
          (Exchange-kept g suits run).1 g.disks g.local_port g.loss)).2

  module _ (works : (n : ℕ) → (there g).works n ≡ true) (replies : List Reply)
      (arrivals : List Arrival) (s : Sender) (r : Receiver) (acks : List Packet)
      (h : IsAbreast g replies arrivals s r acks) where
    abbrev restarted : Sender
    restarted = process_timeout w s

    synced : IsSynced file restarted
    synced = process_timeout-IsSynced w suits s (sending-IsSynced replies arrivals s h.run h.sends)

    prefix : IsPrefix file r
    prefix = receiving-IsPrefix replies arrivals r acks h.run h.receives

    place : restarted.file_position ≡ r.acked_position
    place = unfold process_timeout in omega (arith, h.together, prefix.fits, suits.text.small)

    one_segment : restarted.cwnd ≡ 1
    one_segment = unfold process_timeout in refl

    none_out : restarted.not_acked ≡ pos 0
    none_out = unfold process_timeout in refl

    abbrev sent_one : (s' : Sender) × (p : Packet) × One w restarted s' p
    sent_one =
        one_sent w suits works restarted synced (process_timeout-works w suits s) one_segment
          none_out

    abbrev sender : Sender
    sender = sent_one.0

    abbrev datagram : Packet
    datagram = sent_one.1

    abbrev one : One w restarted sender datagram
    one = sent_one.2

    -- The timeout, and what it sends.
    abbrev replies_1 : List Reply
    replies_1 = replies ++ nothing ∷ []

    run_1 : Exchange g replies_1 arrivals
    run_1 = times_out s h.run h.sends

    sends_1 : sending g replies_1 ≡ Main.waits sender
    sends_1 = sending-append g s replies nothing h.sends ∙ filling
      where
        filling : exit_of (after_reply w s nothing) ≡ Main.waits sender
        filling =
            unfold receive decide await exit_of in ap (λ p. exit_of (await p waiting)) one.filled

    among : Among datagram (sent_of (sending g replies_1))
    among =
        subst (λ out. Among datagram (sent_of out)) (sym sends_1)
          (subst (Among datagram) (sym one.sent) (Among-last datagram restarted.sent))

    segment : IsSegment file datagram
    segment =
        Holds-segment g suits (sending g replies_1) datagram (Exchange-kept g suits run_1).0 among

    pub restarts : (s' : Sender) × (p : Packet) × IsSent g (replies ++ nothing ∷ []) arrivals r s' p
    restarts = (
      sender,
      datagram,
      record {
        run = run_1;
        sends = sends_1;
        among = among;
        segment = segment;
        due = omega (arith, one.seq_num, place);
        starting = one.state ∙ unfold process_timeout in refl;
        acked = one.acked ∙ (unfold process_timeout in h.together);
        failing = one.failing ∙ sym one.fin;
        position = omega (arith, one.position, place, one.data_len);
        full = λ more. ground (
          arith,
          one.data_len,
          length-bytes_at-le w.disk suits.text restarted.file_position,
          sym one.fin ∙ more,
        );
      },
    )
