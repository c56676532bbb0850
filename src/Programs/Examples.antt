-- ===== src/Programs/Examples.antt =====
-- A file of three bytes, from one program to the other in one datagram.
use comnet.Base.{◌≡◌, refl, sym, ap, subst, true, List, [], ◌∷◌, inl}
use comnet.Packet.{Packet}
use comnet.Sender
use comnet.Sender.Replies
use comnet.Sender.Replies.{
  reply, await, waiting, returned, decide, transmit_loop, transmit, final_ack, receive_in,
  ss_receive,
}
use comnet.Sender.Main.{exit_of, send_out, sender_main}
use comnet.Sender.Main
use comnet.Sender.Examples.{
  sample_world, sample_world-Suits, unset, whole_file, after_start, at_start-fill_window,
}
use comnet.Receiver.{received}
use comnet.Receiver.Examples.{machine, anywhere, last_ack}
use comnet.Receiver.Pattern.{open_loss_pattern}
use comnet.Receiver
use comnet.Sender.Window.{fill_window}
use comnet.Receiver.Main.Examples.{disks, receiver_main-one}
use comnet.Receiver.Main as Output
use comnet.Receiver.Main.Prints.{Prints}
use comnet.System.{Among}
use comnet.Programs.{
  Setting, sending, receiving, transmitting, acks_of, sent_of, Exchange, begins, delivers, hears,
}
use comnet.Base.{◌+◌}
use comnet.Receiver.Examples.{listening, listening_lem}
use comnet.Receiver.Main.Examples.{receiver_main-none}
use comnet.Programs.Abreast.{IsAbreast}
use comnet.Programs.Liveness.{CanEnd, programs-CanEnd}
use comnet.Programs.Joined.{programs-Prints, transmit_true-printed}

-- A loss file with mode 0.
abbrev setting : Setting
setting = record {
  world = sample_world;
  start = record { disks = λ name. sample_world.disk; opens = true; garbage = 0; unset = unset };
  name = [];
  host = [];
  port = [];
  machine = machine;
  disks = disks;
  opens = true;
  local_port = [];
  loss = [];
}

sending_first : sending setting [] ≡ Main.waits after_start
unfolding sender_main send_out Sender.open_socket transmit transmit_loop Sender.initial await
    exit_of
sending_first = ap (λ p. exit_of (await p waiting)) at_start-fill_window

-- It comes, and so does its acknowledgement.
through : Exchange setting (reply last_ack ∷ []) (received whole_file anywhere ∷ [])
through =
    hears last_ack after_start
      (delivers whole_file anywhere begins
        (subst (λ out. Among whole_file (sent_of out)) (sym sending_first) (inl refl)))
      sending_first (subst (λ out. Among last_ack (acks_of out)) (sym receiver_main-one) (inl refl))
      (λ e. cc)

transmitting-true : transmitting setting (reply last_ack ∷ []) ≡ returned true after_start
unfolding Sender.open_socket transmit transmit_loop Sender.initial await decide Replies.receive
    receive_in ss_receive final_ack
transmitting-true =
    ap
      (λ p. await p λ s.
        decide (Replies.receive sample_world s (reply last_ack))
          λ t. await (fill_window sample_world t) waiting)
      at_start-fill_window

programs-Prints_example :
    Prints
      (7 ∷ 8 ∷ 9 ∷ [])
      (open_loss_pattern (disks []) Receiver.initial)
      true
      (received whole_file anywhere ∷ [])
      (receiving setting (received whole_file anywhere ∷ []))
programs-Prints_example = programs-Prints setting sample_world-Suits through

transmit_true-printed_example :
    (acks : List Packet) × (receiving setting (received whole_file anywhere ∷ [])
      ≡ Output.prints (7 ∷ 8 ∷ 9 ∷ b'\n' ∷ []) acks)
transmit_true-printed_example =
    transmit_true-printed setting sample_world-Suits after_start through transmitting-true

-- Both programs at their start.
start-IsAbreast : IsAbreast setting [] [] after_start listening []
start-IsAbreast = record {
  run = begins;
  sends = sending_first;
  receives = receiver_main-none;
  together = unfold Sender.initial in ap (λ n. n + 1) (sym listening_lem.0);
  direct = listening_lem.1;
}

programs-CanEnd_example :
    (c : CanEnd setting [] []) × (answers : List Packet) × (receiving setting c.later
      ≡ Output.prints (7 ∷ 8 ∷ 9 ∷ b'\n' ∷ []) answers)
programs-CanEnd_example =
    programs-CanEnd setting sample_world-Suits (λ n. refl) anywhere [] [] after_start listening []
      start-IsAbreast
