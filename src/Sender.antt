-- ===== src/Sender.antt =====
-- MP2/sender_state_machine.{h,cpp}: the sending end of the file transfer, TCP Reno over UDP.
-- `cwnd_`, `ssthresh_` and the counters are never negative and are kept as numbers; `notAcked_`
-- may fall below zero. The positions are `uint32_t` and wrap. What `getTime` returns, what lies on
-- the stack and whether `sendTo` works is the world's; `asked` counts the questions.
pub mod Window
pub mod Replies
pub mod Segments
pub mod Sync
pub mod Transfer
pub mod Resending
pub mod Branches
pub mod Closed
pub mod Stops
pub mod Reno
pub mod Recovery
pub mod Late
pub mod Mislabels
pub mod Alone
pub mod Going
pub mod Hears
pub mod Main
pub mod Missing
pub mod Bounds
pub mod Unset
pub mod Examples
use comnet.Base.{
  ℕ, ◌+◌, ◌-◌, ◌%◌, ◌^◌, Bool, true, false, List, [], ◌∷◌, ◌++◌, Option, none, some, ◌==◌,
  replicate, if◌then◌else◌, length, drop, u16, u32, c_string, resize,
}
use comnet.Base.Int.{ℤ, pos, negsuc, pos_part, neg_part, ◌+ℤ◌, ◌-ℤ◌}
use comnet.Packet.{Packet}
use comnet.Stream.{Disk, Stream}

-- MMSBYTES and `maxNotAcked_`.
abbrev pub mms_bytes : ℕ
mms_bytes = 100

abbrev pub max_not_acked : ℕ
max_not_acked = 25

pub data State : Type 0 where
  slow_start congestion_avoidance fast_recovery : State

pub record Sender : Type 0 where
  pub opened : Bool
  pub cwnd : ℕ
  pub not_acked : ℤ
  pub ssthresh : ℕ
  pub dup_ack_count : ℕ
  pub acked_position : ℕ
  pub file_position : ℕ
  pub ca_ack_count : ℕ
  pub estimated_rtt : ℕ
  pub dev_rtt : ℕ
  pub timeout_interval : ℕ
  pub send_times : List (ℕ × ℕ)
  pub state : State
  pub message : Stream
  -- The datagrams handed to `sendTo` so far, the oldest first, and the number of questions asked
  -- of the world.
  pub sent : List Packet
  pub asked : ℕ

-- `stack` is the memory from the start of `packet_data` on, as the call finds it.
pub record World : Type 0 where
  pub disk : Disk
  pub time : ℕ → ℕ
  pub stack : ℕ → List ℕ
  pub works : ℕ → Bool

-- The constructor. It leaves `caAckCount_` and `message_` as the memory is.
unfoldable pub initial : ℕ → Stream → Sender
initial garbage unset = record {
  opened = false;
  cwnd = 1;
  not_acked = pos 0;
  ssthresh = 1000;
  dup_ack_count = 0;
  acked_position = 1;
  file_position = 0;
  ca_ack_count = garbage;
  estimated_rtt = 100000;
  dev_rtt = 20000;
  timeout_interval = 100000;
  send_times = [];
  state = slow_start;
  message = unset;
  sent = [];
  asked = 0;
}

-- `openSocket`; the flag says whether the constructor of the socket returned.
unfoldable pub open_socket : Bool → Sender → Sender × Bool
open_socket works s = if works then (record s { opened = true }, true) else (s, false)

-- A `uint32_t` plus an `int`.
abbrev pub add_int : ℕ → ℤ → ℕ
add_int a z = u32 (a + pos_part z + (2 ^ 32 - neg_part z % 2 ^ 32))

-- The map `sendTimes_`.
unfoldable pub find_time : ℕ → List (ℕ × ℕ) → Option ℕ
find_time k [] = none
find_time k ((j, t) ∷ m) = if j == k then some t else find_time k m

unfoldable pub set_time : ℕ → ℕ → List (ℕ × ℕ) → List (ℕ × ℕ)
set_time k t [] = (k, t) ∷ []
set_time k t ((j, u) ∷ m) = if j == k then (k, t) ∷ m else (j, u) ∷ set_time k t m

-- The datagram of `sendData`: what `strlen` finds in memory from `data` on is copied; the part
-- that does not fit `p.data` lands behind the packet, outside of the datagram.
unfoldable pub segment : Sender → List ℕ → ℕ → Packet
segment s memory len = record {
  seq_num = u32 (s.file_position + 1);
  ack_num = 0;
  data_len = u16 len;
  ack = false;
  fin = s.message.failing;
  payload = resize 100 (c_string memory);
}

-- The state after `sendData`; `sendTo` throws where the world says so.
unfoldable pub send_data : World → Sender → List ℕ → ℕ → Sender
send_data w s memory len =
    let p = segment s memory len in
    let timed = record s {
      send_times = set_time (u32 (s.file_position + 1)) (w.time s.asked) s.send_times;
      asked = s.asked + 1;
    } in
    if w.works s.asked
    then record timed { not_acked = s.not_acked +ℤ pos 1; sent = s.sent ++ p ∷ [] }
    else timed

-- What `sendData` returns: `strlen(data) - 2`, or -1.
unfoldable pub bytes_sent : World → Sender → List ℕ → ℤ
bytes_sent w s memory =
    if w.works s.asked then pos (length (c_string memory)) -ℤ pos 2 else negsuc 0

-- The memory from `packet_data` on once a chunk is read into it: `transmit` clears the array
-- first, `retransmitMissingSegment` does not.
abbrev pub cleared : World → Sender → List ℕ → List ℕ
cleared w s bytes =
    bytes ++ (replicate (mms_bytes - length bytes) 0 ++ drop mms_bytes (w.stack s.asked))

abbrev pub uncleared : World → Sender → List ℕ → List ℕ
uncleared w s bytes = bytes ++ drop (length bytes) (w.stack s.asked)

-- A part of `transmit` that goes on, or makes it `return false`.
pub data Progress : Type 0 where
  going : Sender → Progress
  failing : Sender → Progress
