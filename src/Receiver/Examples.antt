-- ===== src/Receiver/Examples.antt =====
-- The receiver at a file of three bytes, in two datagrams that arrive in the wrong order.
use comnet.Base.{
  ℕ, ◌<◌, ◌^◌, ◌≡◌, refl, true, false, List, [], ◌∷◌, arith, length, replicate, read_array,
}
use comnet.Packet.{Packet}
use comnet.Segment.{IsSegment}
use comnet.Receiver.{
  Receiver, Machine, Endpoint, received, initial, step, go_on, receive, receive_loop, send_ack,
  check_early_data, receive_packet, filter_loss, periodic_loss, specific_loss, note_source, act,
  respond, process_packet, take_packet, save_data, check_early_loop, find,
}
use comnet.Receiver.Direct.{IsDirect}
use comnet.Receiver.Drain.{Drains, check_early_data-Drains}
use comnet.Receiver.Delivery.{initial-IsPrefix, Delivers, receive-Delivers}
use comnet.Receiver.Progress.{Acknowledges, step-Acknowledges, IsSound, receive_loop-IsSound}

abbrev file : List ℕ
file = 7 ∷ 8 ∷ 9 ∷ []

abbrev small : length file < 2 ^ 31
small = omega arith

abbrev pub machine : Machine
machine = record { past_packet = []; past_specific = λ k. 0 }

abbrev pub listening : Receiver
listening = record initial { opened = true }

abbrev pub anywhere : Endpoint
anywhere = record { address = []; port = 0 }

abbrev head : Packet
head = record {
  seq_num = 1;
  ack_num = 0;
  data_len = 2;
  ack = false;
  fin = false;
  payload = 7 ∷ 8 ∷ replicate 98 0;
}

abbrev last : Packet
last = record {
  seq_num = 3;
  ack_num = 0;
  data_len = 1;
  ack = false;
  fin = true;
  payload = 9 ∷ replicate 99 0;
}

head-IsSegment : IsSegment file head
head-IsSegment = record {
  chunk = record { counted = omega arith; inside = omega arith; same = refl; ends = λ e. cc };
  short = omega arith;
  no_nul = (omega arith, (omega arith, tt));
}

last-IsSegment : IsSegment file last
last-IsSegment = record {
  chunk = record { counted = omega arith; inside = omega arith; same = refl; ends = λ e. refl };
  short = omega arith;
  no_nul = (omega arith, tt);
}

receive-Delivers_example :
    Delivers file small
      (receive machine listening (received last anywhere ∷ received head anywhere ∷ []))
    × ((past : List ℕ)
        → receive
            (record machine { past_packet = past })
            listening
            (received last anywhere ∷ received head anywhere ∷ [])
          ≡ receive machine listening (received last anywhere ∷ received head anywhere ∷ []))
receive-Delivers_example =
    receive-Delivers file small machine listening
      (received last anywhere ∷ received head anywhere ∷ []) (initial-IsPrefix file small)
      (last-IsSegment, (head-IsSegment, tt))

step-Acknowledges_example : Acknowledges listening (step machine listening (received head anywhere))
step-Acknowledges_example =
    step-Acknowledges machine listening (received head anywhere) (unfold initial in refl)

receive_loop-IsSound_example :
    IsSound listening
      (receive_loop machine listening [] (received last anywhere ∷ received head anywhere ∷ []))
receive_loop-IsSound_example =
    receive_loop-IsSound machine listening [] (received last anywhere ∷ received head anywhere ∷ [])
      (unfold initial in refl)

-- The receiver that has taken the whole of a file in one datagram, and its acknowledgement.
abbrev pub one_datagram : Packet
one_datagram = record {
  seq_num = 1;
  ack_num = 0;
  data_len = 3;
  ack = false;
  fin = true;
  payload = 7 ∷ 8 ∷ 9 ∷ replicate 97 0;
}

abbrev pub filled : Receiver
filled = record listening {
  source = anywhere;
  acked_position = 3;
  fin = true;
  recv_data = file;
  rsn = 1;
}

abbrev pub last_ack : Packet
last_ack = record {
  seq_num = 1;
  ack_num = 4;
  data_len = 0;
  ack = true;
  fin = true;
  payload = replicate 100 0;
}

pub step-one_datagram :
    step machine listening (received one_datagram anywhere) ≡ go_on filled (last_ack ∷ [])
unfolding step receive_packet filter_loss periodic_loss specific_loss note_source act respond
    process_packet take_packet save_data check_early_data check_early_loop find send_ack read_array
    initial
step-one_datagram = refl

pub listening-fin : listening.fin ≡ false
unfolding initial
listening-fin = refl

-- The last datagram is kept, and the first has come.
abbrev half_way : Receiver
half_way = record listening {
  acked_position = 2;
  recv_data = 7 ∷ 8 ∷ [];
  buffer = (3, record { bytes = 9 ∷ []; last = true }) ∷ [];
}

check_early_data-Drains_example : Drains half_way (check_early_data half_way)
check_early_data-Drains_example = check_early_data-Drains half_way

pub listening_lem : (listening.acked_position ≡ 0) × IsDirect listening
unfolding initial
listening_lem = (refl, record { steady = refl; unspecific = refl; nothing_early = refl })
