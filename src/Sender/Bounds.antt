-- ===== src/Sender/Bounds.antt =====
-- The `int` members of the sender: `cwnd_`, `ssthresh_`, the counters and `notAcked_`. How far they
-- can have come after a number of replies.
pub mod Replies
pub mod Range
use comnet.Base.{
  ℕ, zero, suc, ◌+◌, ◌*◌, ◌-◌, ◌≤◌, ◌<◌, ◌≡◌, Bool, true, false, List, inl, inr, arith, Bool-cases,
  if◌then◌else◌, length,
}
use comnet.Base.Int.{ℤ, pos, pos_part, neg_part, ◌+ℤ◌, ltb_ℤ}
use comnet.Stream.{seek, read, chunk}
use comnet.Sender.{
  Sender, World, Progress, going, failing, mms_bytes, send_data, bytes_sent, cleared, uncleared,
}
use comnet.Sender.Window.{
  ◌>>=◌, launch, send_chunk, may_send, fill_loop, fill_window, before_acked, resume_point, relaunch,
  resend, retransmit_missing_segment,
}
use comnet.Sender.Stops.{may_send-cases}

-- `notAcked_` after `n` replies: each takes one off, or, after fast recovery, one for each segment
-- that `ackedPosition_` moves on.
pub record Owes (n : ℕ) (s : Sender) : Type 0 where
  pub above : pos_part s.not_acked ≤ n + 30
  pub below : neg_part s.not_acked * 100 ≤ n * 100 + s.acked_position

abbrev pub AllOwe : ℕ → Progress → Type 0
AllOwe n (going s) = Owes n s
AllOwe n (failing s) = Owes n s

if-AllOwe :
    (n : ℕ) (b : Bool) (p q : Progress) → AllOwe n p → AllOwe n q → AllOwe n (if b then p else q)
if-AllOwe n true p q h k = h
if-AllOwe n false p q h k = k

send_data-Owes :
    (n : ℕ) (w : World) (s : Sender) (memory : List ℕ) (len : ℕ)
    → Owes n s
    → pos_part s.not_acked < n + 30
    → Owes n (send_data w s memory len)
unfolding send_data ◌+ℤ◌
send_data-Owes n w s memory len h room = elim (Bool-cases (w.works s.asked)) [
  | inl ok ↦ rw ok (record { above = ground (arith, h.above); below = ground (arith, h.below) })
  | inr bad ↦ rw bad (record { above = h.above; below = h.below })
]

launch-AllOwe :
    (n : ℕ) (w : World) (s : Sender) (bytes : List ℕ)
    → Owes n s
    → pos_part s.not_acked < n + 30
    → AllOwe n (launch w s bytes)
unfolding launch
launch-AllOwe n w s bytes h room =
    let memory = cleared w s bytes in
    let last = send_data-Owes n w s memory (length bytes) h room in
    let full = send_data-Owes n w s memory mms_bytes h room in
    if-AllOwe n s.message.failing _ _ (record { above = last.above; below = last.below })
      (if-AllOwe n (ltb_ℤ (bytes_sent w s memory) (pos 0)) _ _ full
        (record { above = full.above; below = full.below }))

fill_loop-AllOwe : (n fuel : ℕ) (w : World) (s : Sender) → Owes n s → AllOwe n (fill_loop fuel w s)
unfolding fill_loop send_chunk
fill_loop-AllOwe n zero w s h = h
fill_loop-AllOwe n (suc fuel) w s h = elim (Bool-cases (may_send s)) [
  | inl more ↦
      rw (more, fill_loop)
        (andthen (send_chunk w s)
          (launch-AllOwe n w (record s { message = read w.disk mms_bytes s.message })
            (chunk w.disk mms_bytes s.message) (record { above = h.above; below = h.below })
            (below_window s.not_acked (may_send-cases s more).2))
          (λ s' k. fill_loop-AllOwe n fuel w s' k))
  | inr closed ↦ rw (closed, fill_loop) h
]
  where
    below_window : (z : ℤ) → ltb_ℤ z (pos 25) ≡ true → pos_part z < n + 30
    below_window z e = ground arith

    andthen :
        (p : Progress)
        → AllOwe n p
        → ((s' : Sender) → Owes n s' → AllOwe n (fill_loop fuel w s'))
        → AllOwe n (p >>= λ s'. fill_loop fuel w s')
    andthen (going s') k again = again s' k
    andthen (failing s') k again = k

pub fill_window-AllOwe : (n : ℕ) (w : World) (s : Sender) → Owes n s → AllOwe n (fill_window w s)
unfolding fill_window
fill_window-AllOwe n w s h = fill_loop-AllOwe n _ w s h

relaunch-AllOwe :
    (n : ℕ) (w : World) (s : Sender) (bytes : List ℕ) (start : ℕ)
    → Owes n s
    → pos_part s.not_acked < n + 30
    → AllOwe n (relaunch w s bytes start)
unfolding relaunch
relaunch-AllOwe n w s bytes start h room =
    let memory = uncleared w s bytes in
    let len = if s.message.failing then length bytes else mms_bytes in
    let k = send_data-Owes n w s memory len h room in
    if-AllOwe n (ltb_ℤ (bytes_sent w s memory) (pos 0)) (failing (send_data w s memory len)) _ k
      (record { above = k.above; below = k.below })

retransmit-AllOwe :
    (n : ℕ) (w : World) (s : Sender)
    → Owes n s
    → pos_part s.not_acked < n + 30
    → AllOwe n (retransmit_missing_segment w s)
unfolding retransmit_missing_segment resend
retransmit-AllOwe n w s h room =
    relaunch-AllOwe n w
      (record s {
        message = read w.disk mms_bytes (seek (before_acked s) (resume_point w s).0);
        file_position = before_acked s;
      })
      (chunk w.disk mms_bytes (seek (before_acked s) (resume_point w s).0)) (resume_point w s).1
      (record { above = h.above; below = h.below }) room
