-- ===== src/Programs/Joined.antt =====
-- What the two programs do to each other.
use comnet.Base.{
  ℕ, ◌+◌, ◌≤◌, ◌<◌, ◌^◌, ◌≡◌, refl, sym, ap, ◌∙◌, subst, true, List, [], ◌∷◌, ◌++◌, length,
}
use comnet.Packet.{Packet}
use comnet.Segment.{IsSegment}
use comnet.Sender.{Sender}
use comnet.Sender.Replies.{Reply, nothing, reply, Status, finished, receive, returned}
use comnet.Sender.Sync.{Suits}
use comnet.Sender.Main.{Exit, waits, done, exit_of}
use comnet.Sender.Main
use comnet.Receiver.{Arrival, received, failed, raised, initial}
use comnet.Receiver.Delivery.{AllCarry, Carries}
use comnet.Receiver.Pattern.{open_loss_pattern}
use comnet.Receiver.Main as Output
use comnet.Receiver.Main.Prints.{Prints, receiver_main-Prints}
use comnet.Receiver.Main.Speaks.{Speaks, receiver_main-Speaks, receiver_main-prints}
use comnet.System.{Among, Among-within, Among-IsSegment}
use comnet.System.Finish.{Among-final, finished-final_ack}
use comnet.Programs.{
  Setting, there, sending, receiving, transmitting, sent_of, acks_of, Exchange, begins, times_out,
  hears, delivers, fails, throws,
}
use comnet.Programs.Sending.{
  after_reply, after_reply-true, transmitting-begins, transmitting-append, sending-append, Holds,
  after_reply-Holds, sending-begins,
}

module _ (g : Setting) (suits : Suits (there g)) where
  abbrev file : List ℕ
  file = (there g).disk.contents

  abbrev small : length file < 2 ^ 31
  small = suits.text.small

  AllCarry-append :
      (arrivals : List Arrival) (a : Arrival)
      → AllCarry file small arrivals
      → Carries file a
      → AllCarry file small (arrivals ++ a ∷ [])
  AllCarry-append [] a h k = (k, tt)
  AllCarry-append (b ∷ rest) a h k = (h.0, AllCarry-append rest a h.1 k)

  pub Holds-segment :
      (out : Exit) (p : Packet) → Holds file out → Among p (sent_of out) → IsSegment file p
  Holds-segment Main.usage p h m = absurd m
  Holds-segment Main.no_socket p h m = absurd m
  Holds-segment (waits s) p h m = Among-IsSegment file p s.sent h.segments m
  Holds-segment (done s) p h m = Among-IsSegment file p s.sent h m

  Speaks-within :
      (out : Output.Exit) (p : Packet)
      → Speaks file out
      → Among p (acks_of out)
      → p.ack_num ≤ length file + 1
  Speaks-within (Output.waits r acks) p h m = Among-within (length file) p acks h.0 m
  Speaks-within (Output.prints text acks) p h m = Among-within (length file) p acks h m
  Speaks-within Output.usage p h m = absurd m
  Speaks-within Output.no_socket p h m = absurd m
  Speaks-within Output.crashes p h m = absurd m
  Speaks-within Output.undefined p h m = absurd m
  Speaks-within Output.hangs p h m = absurd m

  replies-Holds :
      (s : Sender) (replies : List Reply) (r : Reply)
      → sending g replies ≡ waits s
      → Holds file (exit_of (after_reply (there g) s r))
      → Holds file (sending g (replies ++ r ∷ []))
  replies-Holds s replies r e h = subst (Holds file) (sym (sending-append g s replies r e)) h

  -- Both programs keep to the file.
  pub Exchange-kept :
      {replies : List Reply} {arrivals : List Arrival}
      → Exchange g replies arrivals
      → Holds file (sending g replies) × AllCarry file small arrivals
  Exchange-kept begins = (sending-begins g suits, tt)
  Exchange-kept (times_out {replies} s run e) =
      let (h, c) = Exchange-kept run in
      (
        replies-Holds s replies nothing e
            (after_reply-Holds (there g) suits s nothing (subst (Holds file) e h) tt),
        c,
      )
  Exchange-kept (hears {replies} {arrivals} p s run e m on_time) =
      let (h, c) = Exchange-kept run in
      (
        replies-Holds s replies (reply p) e (
            after_reply-Holds (there g) suits s (reply p) (subst (Holds file) e h) (record {
              within = Speaks-within (receiving g arrivals) p (speaks c) m;
              not_late = on_time;
            })),
        c,
      )
    where
      speaks : AllCarry file small arrivals → Speaks file (receiving g arrivals)
      speaks c =
          receiver_main-Speaks g.machine g.opens file small arrivals c g.disks g.local_port g.loss
  Exchange-kept (delivers {replies} {arrivals} p from run m) =
      let (h, c) = Exchange-kept run in
      (h, AllCarry-append arrivals (received p from) c (Holds-segment (sending g replies) p h m))
  Exchange-kept (fails {replies} {arrivals} from run) =
      let (h, c) = Exchange-kept run in (h, AllCarry-append arrivals (failed from) c tt)
  Exchange-kept (throws {replies} {arrivals} run) =
      let (h, c) = Exchange-kept run in (h, AllCarry-append arrivals raised c tt)

  -- The two `main` against each other, over a network that may lose, repeat, delay and reorder, but
  -- gives the sender no acknowledgement of bytes that its stream has still to come to, for a file
  -- without NUL bytes below 2 ^ 31 bytes and a stack that holds exactly two bytes behind
  -- `packet_data`: at any time, if the receiving program has printed, that is the file that the
  -- sender was asked to send and an end of line, and while it waits it holds a prefix of the file;
  -- it uses a NULL pointer only where the loss pattern makes `atoi` do so or a call of `recvFrom`
  -- throws, hangs only over a loss file that makes the constructor hang, is without a socket only
  -- if that cannot be opened, and in `saveData` reads past no packet. All this holds whatever lies
  -- in memory behind `packet` and behind `specificPackets_`, which the receiver may read.
  pub programs-Prints :
      {replies : List Reply} {arrivals : List Arrival}
      → Exchange g replies arrivals
      → Prints file
          (open_loss_pattern (g.disks g.loss) initial)
          g.opens
          arrivals
          (receiving g arrivals)
  programs-Prints {replies} {arrivals} run =
      receiver_main-Prints file small g.machine g.disks g.opens g.local_port g.loss arrivals
        (Exchange-kept run).1

  -- An acknowledgement with FIN comes from a receiver that has printed.
  Speaks-final :
      (out : Output.Exit) (p : Packet)
      → Speaks file out
      → Among p (acks_of out)
      → p.fin ≡ true
      → (text : List ℕ) × (acks : List Packet) × (out ≡ Output.prints text acks)
  Speaks-final (Output.prints text acks) p h m e = (text, acks, refl)
  Speaks-final (Output.waits r acks) p h m e = cc (Among-final r p acks h.1 m e, h.2)
  Speaks-final Output.usage p h m e = absurd m
  Speaks-final Output.no_socket p h m e = absurd m
  Speaks-final Output.crashes p h m e = absurd m
  Speaks-final Output.undefined p h m e = absurd m
  Speaks-final Output.hangs p h m e = absurd m

  timeout-goes_on : (s t : Sender) → receive (there g) s nothing ≡ (t, finished) → ⊥
  unfolding receive
  timeout-goes_on s t e = cc (ap (λ (out : Sender × Status). out.1) e)

  abbrev Printed : List Arrival → Type 0
  Printed arrivals =
      (text : List ℕ) × (acks : List Packet) × (receiving g arrivals ≡ Output.prints text acks)

  still : (arrivals : List Arrival) (a : Arrival) → Printed arrivals → Printed (arrivals ++ a ∷ [])
  still arrivals a (text, acks, e) = (
    text,
    acks,
    receiver_main-prints g.machine g.opens text acks arrivals a g.disks g.local_port g.loss e,
  )

  returned-Printed :
      {replies : List Reply} {arrivals : List Arrival} (s : Sender)
      → Exchange g replies arrivals
      → transmitting g replies ≡ returned true s
      → Printed arrivals
  returned-Printed s begins t = absurd (transmitting-begins g s t)
  returned-Printed s (times_out {replies} s' run e) t =
      let (u, f) =
        after_reply-true (there g) s' s nothing
          (sym (transmitting-append g s' replies nothing e) ∙ t) in
      absurd (timeout-goes_on s' u f)
  returned-Printed s (hears {replies} {arrivals} p s' run e m on_time) t =
      let (u, f) =
        after_reply-true (there g) s' s (reply p)
          (sym (transmitting-append g s' replies (reply p) e) ∙ t) in
      Speaks-final (receiving g arrivals) p
        (receiver_main-Speaks g.machine g.opens file small arrivals (Exchange-kept run).1 g.disks
          g.local_port g.loss)
        m (finished-final_ack (there g) s' u p f)
  returned-Printed s (delivers {replies} {arrivals} p from run m) t =
      still arrivals (received p from) (returned-Printed s run t)
  returned-Printed s (fails {replies} {arrivals} from run) t =
      still arrivals (failed from) (returned-Printed s run t)
  returned-Printed s (throws {replies} {arrivals} run) t =
      still arrivals raised (returned-Printed s run t)

  -- The two `main` against each other, over a network that may lose, repeat, delay and reorder, but
  -- gives the sender no acknowledgement of bytes that its stream has still to come to, for a file
  -- without NUL bytes below 2 ^ 31 bytes and a stack that holds exactly two bytes behind
  -- `packet_data`: once `transmit` has returned true in the sender, the receiving program has
  -- printed the file that the sender was asked to send, and an end of line, whatever comes to it
  -- later.
  pub transmit_true-printed :
      {replies : List Reply} {arrivals : List Arrival} (s : Sender)
      → Exchange g replies arrivals
      → transmitting g replies ≡ returned true s
      → (acks : List Packet) × (receiving g arrivals ≡ Output.prints (file ++ b'\n' ∷ []) acks)
  transmit_true-printed {replies} {arrivals} s run t =
      let (text, acks, e) = returned-Printed s run t in
      (
        acks,
        e
            ∙ ap (λ x. Output.prints x acks)
                (subst (Prints file _ g.opens arrivals) e (programs-Prints run)),
      )
