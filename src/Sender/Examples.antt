-- ===== src/Sender/Examples.antt =====
-- The sender at a file of three bytes, in one datagram.
pub mod Whole
use comnet.Base.{◌+◌}
use comnet.Base.{
  ℕ, ◌≡◌, refl, true, false, List, [], ◌∷◌, ◌++◌, inl, c_string, resize, arith, replicate,
}
use comnet.Base.Int.{pos, ◌+ℤ◌, ◌-ℤ◌}
use comnet.Packet.{Packet}
use comnet.Stream.{Stream, open_file, chunk, read}
use comnet.Sender.Sync.{IsSynced, Suits}
use comnet.Sender.Closed.{After, receive-After}
use comnet.Base.{◌≢◌, ap, ◌∙◌}
use comnet.Stream.{seek}
use comnet.Sender.Window.{resend, relaunch, resume_point}
use comnet.Sender.{fast_recovery}
use comnet.Sender.Replies.{nothing}
use comnet.Sender.Stops.{Fills, fill_window-Fills}
use comnet.Sender.Reno.Implements.{receive-control}
use comnet.Sender.Reno.{control, reno, event_of, fresh, repeated}
use comnet.Sender.Recovery.{none_more, recovery_halves}
use comnet.Sender.{congestion_avoidance}
use comnet.Sender.Replies.{
  final_ack, is_dup_ack, receive_in, ss_receive, third_dup, count_dup, halve, settle, reply,
  receive,
}
use comnet.Sender.{initial}
use comnet.Sender
use comnet.Sender.{Sender, World, going, segment, send_data, bytes_sent, set_time}
use comnet.Sender.Window.{
  retransmit_missing_segment, fill_window, fill_loop, may_send, send_chunk, launch,
}

abbrev pub three_bytes : List ℕ
three_bytes = 7 ∷ 8 ∷ 9 ∷ []

-- Two bytes lie behind the 100 of `packet_data`; the clock stands still, and all goes out.
abbrev pub sample_world : World
sample_world = record {
  disk = record { readable = true; contents = three_bytes };
  time = λ n. 5;
  stack = λ n. replicate 100 0 ++ 1 ∷ 1 ∷ 0 ∷ [];
  works = λ n. true;
}

pub sample_world-Suits : Suits sample_world
sample_world-Suits = record {
  text = record {
    readable = refl;
    small = omega arith;
    no_nul = (omega arith, (omega arith, (omega arith, tt)));
  };
  two_behind = λ n. unfold c_string in refl;
}

abbrev pub unset : Stream
unset = record { position = 0; failing = false }

abbrev pub at_start : Sender
at_start = record (Sender.initial 0 unset) { opened = true; message = open_file sample_world.disk }

-- The one datagram of the file, and the sender once it is sent.
abbrev pub whole_file : Packet
whole_file = record {
  seq_num = 1;
  ack_num = 0;
  data_len = 3;
  ack = false;
  fin = true;
  payload = 7 ∷ 8 ∷ 9 ∷ replicate 97 0;
}

abbrev pub after_start : Sender
after_start = record at_start {
  not_acked = pos 1;
  file_position = 1;
  message = record { position = 3; failing = true };
  send_times = (1, 5) ∷ [];
  sent = whole_file ∷ [];
  asked = 1;
}

pub at_start-fill_window : fill_window sample_world at_start ≡ going after_start
unfolding fill_window fill_loop may_send send_chunk launch segment send_data bytes_sent set_time
    chunk read open_file Sender.initial c_string resize ◌+ℤ◌ ◌-ℤ◌
at_start-fill_window = refl

at_start-IsSynced : IsSynced three_bytes at_start
unfolding Sender.initial open_file
at_start-IsSynced = record {
  aligned = λ e. refl;
  bounded = inl (omega arith);
  counted = omega arith;
  inside = omega arith;
  segments = tt;
}

-- The acknowledgement of the first byte, before the others were sent, as `message_` stands at 0.
abbrev pub early_ack : Packet
early_ack = record {
  seq_num = 1;
  ack_num = 1;
  data_len = 0;
  ack = true;
  fin = false;
  payload = replicate 100 0;
}

receive-After_example :
    After sample_world sample_world-Suits (receive sample_world at_start (reply early_ack))
receive-After_example =
    receive-After sample_world sample_world-Suits at_start (reply early_ack) at_start-IsSynced
      (record { within = omega arith; not_late = λ e. omega arith })

fill_window-Fills_example : Fills at_start (fill_window sample_world at_start)
fill_window-Fills_example = fill_window-Fills sample_world at_start

receive-control_example :
    control (receive sample_world at_start nothing).0
    ≡ reno (control at_start) (event_of at_start.acked_position nothing)
receive-control_example = receive-control sample_world at_start nothing

-- Two duplicates were heard with four segments of window, and the whole file is sent.
abbrev twice : Sender
twice = record after_start { cwnd = 4; dup_ack_count = 2 }

abbrev recovering : Sender
recovering = record after_start {
  cwnd = 5;
  not_acked = pos 3;
  ssthresh = 200;
  dup_ack_count = 3;
  state = fast_recovery;
  sent = whole_file ∷ whole_file ∷ [];
  asked = 2;
}

twice-receive : (receive sample_world twice (reply early_ack)).0 ≡ recovering
unfolding receive receive_in ss_receive final_ack is_dup_ack third_dup count_dup halve settle
    retransmit_missing_segment resend relaunch resume_point seek open_file read chunk send_data
    segment bytes_sent set_time c_string resize Sender.initial ◌+ℤ◌ ◌-ℤ◌
twice-receive = refl

recovering-fill_window : fill_window sample_world recovering ≡ going recovering
unfolding fill_window fill_loop may_send
recovering-fill_window = refl

at_start-state : twice.state ≢ fast_recovery
unfolding Sender.initial
at_start-state e = cc

abbrev new_ack : Packet
new_ack = record early_ack { ack_num = 3 }

new_ack-fresh : event_of recovering.acked_position (reply new_ack) ≡ fresh 3
unfolding final_ack Sender.initial
new_ack-fresh = refl

early_ack-repeated : event_of twice.acked_position (reply early_ack) ≡ repeated
unfolding final_ack Sender.initial
early_ack-repeated = refl

recovery_halves_example :
    ((receive sample_world recovering (reply new_ack)).0.cwnd ≡ 2)
    × ((receive sample_world recovering (reply new_ack)).0.state ≡ congestion_avoidance)
recovery_halves_example =
    recovery_halves sample_world twice recovering recovering early_ack new_ack 3 at_start-state refl
      early_ack-repeated (ap (fill_window sample_world) twice-receive ∙ recovering-fill_window)
      none_more new_ack-fresh
