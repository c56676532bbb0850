-- ===== src/Sender/Reno/Grows.antt =====
-- How far the windows and the counters of Reno can have come after a number of events.
use comnet.Base.{
  ℕ, ◌+◌, ◌*◌, ◌≤◌, ◌<◌, ◌^◌, ◌≡◌, refl, Bool, true, false, arith, ltb, leb, inl, inr, Bool-cases,
  if◌then◌else◌, ◌&&◌, subst, sym,
}
use comnet.Sender.{State, slow_start, congestion_avoidance, fast_recovery, Sender}
use comnet.Base.{zero, suc, List, length}
use comnet.Base.Int.{pos, ltb_ℤ}
use comnet.Stream.{read, chunk}
use comnet.Sender.{World, Progress, going, failing, mms_bytes, bytes_sent, cleared}
use comnet.Sender.Window.{◌>>=◌, launch, send_chunk, may_send, fill_loop, fill_window}
use comnet.Sender.Reno.Implements.{Controls, if-Controls, send_data-control, receive-control}
use comnet.Sender.Replies.{Reply, nothing, reply, final_ack, receive}
use comnet.Sender.Reno.{
  Control, control, Event, timeout, last, repeated, other, fresh, event_of, count_repeated,
  on_repeated, on_fresh, reno,
}

-- After `n` replies. `caAckCount_`, which the constructor leaves as it is, is counted only where it
-- is read.
pub record IsSmall (n : ℕ) (c : Control) : Type 0 where
  pub window : c.cwnd ≤ n + 10
  pub threshold : c.ssthresh ≤ (n + 10) * 100
  pub dups : c.dups ≤ n
  pub growth : c.state ≡ congestion_avoidance → c.growth ≤ n
  pub acked : c.acked < 2 ^ 32

-- `ackNum` is a `uint32_t`.
abbrev pub FitsWord : Reply → Type 0
FitsWord nothing = Unit {0}
FitsWord (reply p) = p.ack_num < 2 ^ 32

abbrev Acks : Event → Type 0
Acks (fresh ack) = ack < 2 ^ 32
Acks timeout = Unit {0}
Acks last = Unit {0}
Acks repeated = Unit {0}
Acks other = Unit {0}

count_repeated-IsSmall : (n : ℕ) (c : Control) → IsSmall n c → IsSmall (n + 1) (count_repeated c)
unfolding count_repeated
count_repeated-IsSmall n c h = grind arith

on_repeated-IsSmall :
    (n : ℕ) (c : Control) (st : State)
    → c.state ≡ st
    → IsSmall n c
    → IsSmall (n + 1) (on_repeated st c)
unfolding on_repeated
on_repeated-IsSmall n c slow_start e h = count_repeated-IsSmall n c h
on_repeated-IsSmall n c congestion_avoidance e h = count_repeated-IsSmall n c h
on_repeated-IsSmall n c fast_recovery e h = grind arith

on_fresh-IsSmall :
    (n : ℕ) (c : Control) (st : State)
    → c.state ≡ st
    → IsSmall n c
    → IsSmall (n + 1) (on_fresh st c)
unfolding on_fresh
on_fresh-IsSmall n c slow_start e h = grind arith
on_fresh-IsSmall n c congestion_avoidance e h = grind arith
on_fresh-IsSmall n c fast_recovery e h = grind arith

pub reno-IsSmall :
    (n : ℕ) (c : Control) (e : Event) → Acks e → IsSmall n c → IsSmall (n + 1) (reno c e)
unfolding reno
reno-IsSmall n c timeout k h = grind arith
reno-IsSmall n c last k h = grind arith
reno-IsSmall n c other k h = grind arith
reno-IsSmall n c repeated k h = on_repeated-IsSmall n c c.state refl h
reno-IsSmall n c (fresh ack) k h =
    on_fresh-IsSmall n (record c { dups = 0; acked = ack }) c.state refl (grind arith)

if-Acks : (b : Bool) (x y : Event) → Acks x → Acks y → Acks (if b then x else y)
if-Acks true x y h k = h
if-Acks false x y h k = k

-- What a sender hears in a reply.
pub receive-IsSmall :
    (n : ℕ) (w : World) (s : Sender) (r : Reply)
    → FitsWord r
    → IsSmall n (control s)
    → IsSmall (n + 1) (control (receive w s r).0)
receive-IsSmall n w s r fits h =
    subst (IsSmall (n + 1)) (sym (receive-control w s r))
      (reno-IsSmall n (control s) (event_of s.acked_position r) (acks r fits) h)
  where
    acks : (r : Reply) → FitsWord r → Acks (event_of s.acked_position r)
    acks nothing fits = tt
    acks (reply p) fits = if-Acks (final_ack p) _ _ tt (
        if-Acks (p.ack && leb p.ack_num s.acked_position) _ _ tt
          (if-Acks (p.ack && ltb s.acked_position p.ack_num) _ _ fits tt))

launch-control : (w : World) (s : Sender) (bytes : List ℕ) → Controls (control s) (launch w s bytes)
unfolding launch
launch-control w s bytes =
    let memory = cleared w s bytes in
    if-Controls (control s) s.message.failing _ _ (send_data-control w s memory (length bytes)) (
      if-Controls (control s) (ltb_ℤ (bytes_sent w s memory) (pos 0)) _ _
        (send_data-control w s memory mms_bytes) (send_data-control w s memory mms_bytes))

fill_loop-control : (fuel : ℕ) (w : World) (s : Sender) → Controls (control s) (fill_loop fuel w s)
unfolding fill_loop send_chunk
fill_loop-control zero w s = refl
fill_loop-control (suc fuel) w s = elim (Bool-cases (may_send s)) [
  | inl more ↦
      rw (more, fill_loop)
        (andthen (send_chunk w s)
          (launch-control w (record s { message = read w.disk mms_bytes s.message })
            (chunk w.disk mms_bytes s.message))
          (λ s'. fill_loop-control fuel w s'))
  | inr closed ↦ rw (closed, fill_loop) refl
]
  where
    andthen :
        (p : Progress)
        → Controls (control s) p
        → ((s' : Sender) → Controls (control s') (fill_loop fuel w s'))
        → Controls (control s) (p >>= λ s'. fill_loop fuel w s')
    andthen (going s') k again = subst (λ c. Controls c (fill_loop fuel w s')) k (again s')
    andthen (failing s') k again = k

-- Sending leaves the congestion control as it is.
pub fill_window-control : (w : World) (s : Sender) → Controls (control s) (fill_window w s)
unfolding fill_window
fill_window-control w s = fill_loop-control _ w s
