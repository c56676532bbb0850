-- ===== src/Sender/Replies.antt =====
-- MP2/sender_state_machine.cpp: `ssReceive`, `caReceive`, `frReceive` and the loop of `transmit`.
use comnet.Base.{
  ℕ, ◌+◌, ◌-◌, ◌*◌, ◌/◌, ◌%◌, ◌^◌, Bool, true, false, ◌&&◌, List, [], ◌∷◌, none, some, ltb, leb,
  ◌==◌, if◌then◌else◌, u32,
}
use comnet.Base.Int.{pos, ◌-ℤ◌, ltb_ℤ}
use comnet.Packet.{Packet}
use comnet.Stream.{Stream, open_file, seek, tell}
use comnet.Sender.{
  State, slow_start, congestion_avoidance, fast_recovery, Sender, World, Progress, going, failing,
  mms_bytes, find_time,
}
use comnet.Sender.Window.{fill_window, retransmit_missing_segment, process_timeout}

-- What `receivePacket` comes back with: a negative count (the timeout, or an error), or a packet.
pub data Reply : Type 0 where
  nothing : Reply
  reply : Packet → Reply

-- 1, 0 and -1.
pub data Status : Type 0 where
  finished normal error : Status

unfoldable pub final_ack : Packet → Bool
final_ack p = p.fin && p.ack

unfoldable pub is_dup_ack : Sender → Packet → Bool
is_dup_ack s p = p.ack && leb p.ack_num s.acked_position

unfoldable pub is_new_ack : Sender → Packet → Bool
is_new_ack s p = p.ack && ltb s.acked_position p.ack_num

-- `unsigned long` subtraction.
abbrev pub sub64 : ℕ → ℕ → ℕ
sub64 a b = (a + (2 ^ 64 - b % 2 ^ 64)) % 2 ^ 64

-- The averages of `updateRTT`. The weights 1/8 and 1/4 are exact in binary, so that below 2 ^ 50
-- the `double` is the exact value, and its conversion cuts off the fraction.
unfoldable pub smooth_rtt : ℕ → ℕ → ℕ
smooth_rtt estimated sample = (7 * estimated + sample) / 8

unfoldable pub smooth_dev : ℕ → ℕ → ℕ
smooth_dev dev difference = (3 * dev + difference) / 4

unfoldable pub update_rtt : World → Sender → ℕ → Sender
update_rtt w s seq = elim (find_time seq s.send_times) [
  | none ↦ record s { asked = s.asked + 1 }
  | some sent_at ↦
      let now = w.time s.asked in
      let estimated = smooth_rtt s.estimated_rtt (sub64 now sent_at) in
      let dev =
        smooth_dev s.dev_rtt (if ltb now sent_at then sub64 sent_at now else sub64 now sent_at) in
      record s {
        asked = s.asked + 1;
        estimated_rtt = estimated;
        dev_rtt = dev;
        timeout_interval = (estimated + 4 * dev) % 2 ^ 64;
      }
]

-- The stream is moved on where it stands before what is acknowledged.
unfoldable pub skip_acked : ℕ → Stream → Stream
skip_acked ack m =
    if ltb_ℤ (tell m) (pos ack) && ltb_ℤ (pos 0) (tell m)
    then seek (u32 (ack + (2 ^ 32 - 1))) m
    else m

-- `newAck` where its test succeeds.
unfoldable pub accept_ack : World → Sender → Packet → Sender
accept_ack w s p =
    let s' = update_rtt w s p.seq_num in
    record s' {
      acked_position = p.ack_num;
      message = skip_acked p.ack_num s'.message;
      dup_ack_count = 0;
    }

-- `dupAck` where its test succeeds.
unfoldable pub count_dup : Sender → Sender
count_dup s = record s { dup_ack_count = s.dup_ack_count + 1 }

abbrev one_acked : Sender → Sender
one_acked s = record s { not_acked = s.not_acked -ℤ pos 1 }

-- The window on the third duplicate, before the segment is sent again.
unfoldable pub halve : Sender → Sender
halve s = record s {
  ssthresh = s.cwnd / 2 * mms_bytes;
  cwnd = s.cwnd / 2 * mms_bytes / mms_bytes + 3;
  not_acked = pos (s.cwnd / 2 * mms_bytes / mms_bytes + 3 - 3);
  state = fast_recovery;
}

unfoldable pub settle : Progress → Sender × Status
settle (going s) = (s, normal)
settle (failing s) = (s, error)

-- The duplicate branch of `ssReceive` and `caReceive`.
unfoldable pub third_dup : World → Sender → Sender × Status
third_dup w s =
    if s.dup_ack_count == 3 then settle (retransmit_missing_segment w (halve s)) else (s, normal)

-- The growth on a new acknowledgement, in each state.
unfoldable pub grow_slow_start : Sender → Sender
grow_slow_start s =
    let s' = record s { cwnd = s.cwnd + 1 } in
    one_acked (
      if leb s.ssthresh ((s.cwnd + 1) * mms_bytes)
      then record s' { ca_ack_count = 0; state = congestion_avoidance }
      else s')

unfoldable pub grow_avoidance : Sender → Sender
grow_avoidance s = one_acked (
    if s.cwnd == s.ca_ack_count + 1
    then record s { cwnd = s.cwnd + 1; ca_ack_count = 0 }
    else record s { ca_ack_count = s.ca_ack_count + 1 })

-- `temp` is `ackedPosition_` from before; the loop takes one off `notAcked_` for each full segment.
unfoldable pub leave_recovery : ℕ → ℕ → Sender → Sender
leave_recovery temp ack s = record s {
  cwnd = s.ssthresh / mms_bytes;
  ca_ack_count = 0;
  state = congestion_avoidance;
  not_acked = s.not_acked -ℤ pos (u32 (ack + (2 ^ 32 - temp % 2 ^ 32)) / mms_bytes);
}

unfoldable pub ss_receive : World → Sender → Packet → Sender × Status
ss_receive w s p =
    if final_ack p
    then (s, finished)
    else if is_dup_ack s p
    then third_dup w (count_dup s)
    else if is_new_ack s p
    then (grow_slow_start (accept_ack w s p), normal)
    else (s, normal)

unfoldable pub ca_receive : World → Sender → Packet → Sender × Status
ca_receive w s p =
    if final_ack p
    then (s, finished)
    else if is_dup_ack s p
    then third_dup w (count_dup s)
    else if is_new_ack s p
    then (grow_avoidance (accept_ack w s p), normal)
    else (s, normal)

unfoldable pub inflate : Sender → Sender
inflate s = record s { cwnd = s.cwnd + 1 }

unfoldable pub fr_receive : World → Sender → Packet → Sender × Status
fr_receive w s p =
    if final_ack p
    then (s, finished)
    else if is_dup_ack s p
    then (inflate (count_dup s), normal)
    else if is_new_ack s p
    then (leave_recovery s.acked_position p.ack_num (accept_ack w s p), normal)
    else (s, normal)

-- The switch on the state. Each of the three begins with the timeout.
unfoldable pub receive_in : State → World → Sender → Packet → Sender × Status
receive_in slow_start = ss_receive
receive_in congestion_avoidance = ca_receive
receive_in fast_recovery = fr_receive

unfoldable pub receive : World → Sender → Reply → Sender × Status
receive w s nothing = (process_timeout w s, normal)
receive w s (reply p) = receive_in s.state w s p

-- `transmit` after a list of replies: it waits for the next, or returned.
pub data Outcome : Type 0 where
  waiting : Sender → Outcome
  returned : Bool → Sender → Outcome

unfoldable pub decide : Sender × Status → (Sender → Outcome) → Outcome
decide (s, finished) next = returned true s
decide (s, normal) next = next s
decide (s, error) next = returned false s

unfoldable pub await : Progress → (Sender → Outcome) → Outcome
await (going s) next = next s
await (failing s) next = returned false s

unfoldable pub transmit_loop : World → Sender → List Reply → Outcome
transmit_loop w s [] = await (fill_window w s) waiting
transmit_loop w s (r ∷ rest) =
    await (fill_window w s) λ s'. decide (receive w s' r) λ s''. transmit_loop w s'' rest

unfoldable pub transmit : World → Sender → List Reply → Outcome
transmit w s replies =
    if s.opened
    then transmit_loop w (record s { message = open_file w.disk }) replies
    else returned false s
