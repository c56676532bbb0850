-- ===== src/Sender/Window.antt =====
-- MP2/sender_state_machine.cpp: the sending loop of `transmit`, `retransmitMissingSegment` and
-- `processTimeout`.
use comnet.Base.{
  ℕ, List, zero, suc, ◌+◌, ◌-◌, ◌*◌, ◌/◌, ◌^◌, Bool, true, false, not, ◌&&◌, if◌then◌else◌, length,
  u32,
}
use comnet.Base.Int.{ℤ, pos, neg_part, ltb_ℤ}
use comnet.Stream.{Stream, open_file, seek, chunk, read}
use comnet.Sender.{
  slow_start, Sender, World, Progress, going, failing, mms_bytes, max_not_acked, add_int, send_data,
  bytes_sent, cleared, uncleared,
}

infixl 5 ◌>>=◌
abbrev pub ◌>>=◌ : Progress → (Sender → Progress) → Progress
going s >>= next = next s
failing s >>= next = failing s

-- `filePosition_ += n`.
abbrev pub advance : Sender → ℤ → Sender
advance s n = record s { file_position = add_int s.file_position n }

-- The body of the sending loop of `transmit`, once a chunk is read. Of the last chunk the result of
-- `sendData` is not looked at.
unfoldable pub launch : World → Sender → List ℕ → Progress
launch w s bytes =
    let memory = cleared w s bytes in
    let n = bytes_sent w s memory in
    if s.message.failing
    then going (advance (send_data w s memory (length bytes)) n)
    else if ltb_ℤ n (pos 0)
    then failing (send_data w s memory mms_bytes)
    else going (advance (send_data w s memory mms_bytes) n)

unfoldable pub send_chunk : World → Sender → Progress
send_chunk w s =
    launch w (record s { message = read w.disk mms_bytes s.message })
      (chunk w.disk mms_bytes s.message)

unfoldable pub may_send : Sender → Bool
may_send s =
    not s.message.failing
    && (ltb_ℤ s.not_acked (pos s.cwnd) && ltb_ℤ s.not_acked (pos max_not_acked))

-- "transmit as much as we can", on fuel.
unfoldable pub fill_loop : ℕ → World → Sender → Progress
fill_loop zero w s = going s
fill_loop (suc fuel) w s = elim (may_send s) [
  | true ↦ send_chunk w s >>= λ s'. fill_loop fuel w s'
  | false ↦ going s
]

-- Each round adds to `notAcked_`, which stops at 25, or meets the end of the file.
unfoldable pub fill_window : World → Sender → Progress
fill_window w s = fill_loop (max_not_acked + neg_part s.not_acked + 2) w s

-- `ackedPosition_-1`.
abbrev pub before_acked : Sender → ℕ
before_acked s = u32 (s.acked_position + (2 ^ 32 - 1))

-- `start_position`, and the stream that the code reopens once it fails.
unfoldable pub resume_point : World → Sender → Stream × ℕ
resume_point w s =
    if s.message.failing
    then (seek s.file_position (open_file w.disk), s.file_position)
    else (s.message, s.message.position)

-- The missing chunk, once it is read, and the way back to `start`.
unfoldable pub relaunch : World → Sender → List ℕ → ℕ → Progress
relaunch w s bytes start =
    let memory = uncleared w s bytes in
    let s' = send_data w s memory (if s.message.failing then length bytes else mms_bytes) in
    if ltb_ℤ (bytes_sent w s memory) (pos 0)
    then failing s'
    else going (record s' { message = seek start s'.message; file_position = u32 start })

unfoldable pub resend : World → Sender → Stream → ℕ → Progress
resend w s stream start =
    let there = seek (before_acked s) stream in
    relaunch w (record s { message = read w.disk mms_bytes there; file_position = before_acked s })
      (chunk w.disk mms_bytes there) start

unfoldable pub retransmit_missing_segment : World → Sender → Progress
retransmit_missing_segment w s = resend w s (resume_point w s).0 (resume_point w s).1

unfoldable pub process_timeout : World → Sender → Sender
process_timeout w s = record s {
  ssthresh = s.cwnd * mms_bytes / 2;
  cwnd = 1;
  dup_ack_count = 0;
  message = seek (before_acked s) (if s.message.failing then open_file w.disk else s.message);
  file_position = before_acked s;
  not_acked = pos 0;
  state = slow_start;
}
