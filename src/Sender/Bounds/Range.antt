-- ===== src/Sender/Bounds/Range.antt =====
-- No `int` of the sender overflows, for as many replies as come in weeks.
use comnet.Base.{
  ℕ, ◌+◌, ◌*◌, ◌/◌, ◌≤◌, ◌<◌, ◌^◌, ◌≡◌, sym, subst, Bool, true, false, List, [], ◌∷◌, arith,
  if◌then◌else◌, length,
}
use comnet.Base.Int.{pos_part, neg_part}
use comnet.Stream.{Stream}
use comnet.Sender.{
  congestion_avoidance, Sender, World, Progress, going, failing, initial, open_socket,
}
use comnet.Sender.Window.{fill_window}
use comnet.Sender.Replies.{
  Reply, Status, finished, normal, error, receive, Outcome, waiting, returned, decide, await,
  transmit_loop, transmit,
}
use comnet.Sender.Reno.{control}
use comnet.Sender.Reno.Grows.{IsSmall, FitsWord, receive-IsSmall, fill_window-control}
use comnet.Sender.Reno.Implements.{Controls}
use comnet.Stream.{open_file}
use comnet.Sender.Bounds.Replies.{receive-Owes}
use comnet.Sender.Bounds.{Owes, AllOwe, fill_window-AllOwe}

-- The `int` members, and what is computed with them at the next reply, lie below 2 ^ 31.
pub record IsInRange (s : Sender) : Type 0 where
  pub cwnd : (s.cwnd + 3) * 100 < 2 ^ 31
  pub ssthresh : s.ssthresh < 2 ^ 31
  pub dup_ack_count : s.dup_ack_count + 1 < 2 ^ 31
  pub ca_ack_count : s.state ≡ congestion_avoidance → s.ca_ack_count + 1 < 2 ^ 31
  pub not_acked_above : pos_part s.not_acked + 1 < 2 ^ 31
  pub not_acked_below : neg_part s.not_acked + 2 ^ 32 / 100 < 2 ^ 31

abbrev pub InRange : Outcome → Type 0
InRange (waiting s) = IsInRange s
InRange (returned worked s) = IsInRange s

-- Replies with a `uint32_t` in each.
abbrev pub AllFit : List Reply → Type 0
AllFit [] = Unit {0}
AllFit (r ∷ rest) = FitsWord r × AllFit rest

abbrev Counts : ℕ → Sender → Type 0
Counts n s = IsSmall n (control s) × Owes n s

Counts-IsInRange : (n : ℕ) (s : Sender) → n ≤ 21_000_000 → Counts n s → IsInRange s
Counts-IsInRange n s few (c, o) = record {
  cwnd = omega (arith, c.window);
  ssthresh = omega (arith, c.threshold);
  dup_ack_count = omega (arith, c.dups);
  ca_ack_count = λ e. omega (arith, c.growth e);
  not_acked_above = omega (arith, o.above);
  not_acked_below = omega (arith, o.below, c.acked);
}

decide-InRange :
    (n : ℕ) (out : Sender × Status) (next : Sender → Outcome)
    → n ≤ 21_000_000
    → Counts n out.0
    → ((s : Sender) → Counts n s → InRange (next s))
    → InRange (decide out next)
unfolding decide
decide-InRange n (s, finished) next few h k = Counts-IsInRange n s few h
decide-InRange n (s, normal) next few h k = k s h
decide-InRange n (s, error) next few h k = Counts-IsInRange n s few h

await-InRange :
    (n : ℕ) (w : World) (s : Sender) (next : Sender → Outcome)
    → n ≤ 21_000_000
    → Counts n s
    → ((s' : Sender) → Counts n s' → InRange (next s'))
    → InRange (await (fill_window w s) next)
unfolding await
await-InRange n w s next few (c, o) k =
    ended (fill_window w s) (fill_window-control w s) (fill_window-AllOwe n w s o)
  where
    ended : (p : Progress) → Controls (control s) p → AllOwe n p → InRange (await p next)
    ended (going s') e o' = k s' (subst (IsSmall n) (sym e) c, o')
    ended (failing s') e o' = Counts-IsInRange n s' few (subst (IsSmall n) (sym e) c, o')

transmit_loop-InRange :
    (n : ℕ) (w : World) (s : Sender) (replies : List Reply)
    → n + length replies ≤ 21_000_000
    → AllFit replies
    → Counts n s
    → InRange (transmit_loop w s replies)
unfolding transmit_loop
transmit_loop-InRange n w s [] few fit h =
    await-InRange n w s waiting (omega arith) h λ s' k. Counts-IsInRange n s' (omega arith) k
transmit_loop-InRange n w s (r ∷ rest) few fit h = await-InRange n w s _ (omega arith) h λ s' k.
    decide-InRange (n + 1) (receive w s' r) _ (omega arith)
      (receive-IsSmall n w s' r fit.0 k.0, receive-Owes n w s' r fit.0 (k.0).window k.1)
      λ s'' k'. transmit_loop-InRange (n + 1) w s'' rest (omega arith) fit.1 k'

initial-Counts :
    (works : Bool) (garbage : ℕ) (unset m : Stream)
    → Counts 0 (record (open_socket works (initial garbage unset)).0 { message = m })
unfolding initial open_socket
initial-Counts true garbage unset m = (
  record {
    window = omega arith;
    threshold = omega arith;
    dups = omega arith;
    growth = λ e. cc;
    acked = omega arith;
  },
  record { above = omega arith; below = omega arith },
)
initial-Counts false garbage unset m = (
  record {
    window = omega arith;
    threshold = omega arith;
    dups = omega arith;
    growth = λ e. cc;
    acked = omega arith;
  },
  record { above = omega arith; below = omega arith },
)

if-InRange : (b : Bool) (x y : Outcome) → InRange x → InRange y → InRange (if b then x else y)
if-InRange true x y h k = h
if-InRange false x y h k = k

-- From the constructor on, whatever that leaves in `caAckCount_`, and whatever comes, in at most 21
-- million replies: where `transmit` waits or has returned, `cwnd_` in bytes, `ssthresh_`, the
-- counters and `notAcked_`, and what the next reply computes of them, fit an `int`. `caAckCount_`
-- is meant in congestion avoidance, where alone it is read.
pub transmit-InRange :
    (w : World) (works : Bool) (garbage : ℕ) (unset : Stream) (replies : List Reply)
    → length replies ≤ 21_000_000
    → AllFit replies
    → InRange (transmit w (open_socket works (initial garbage unset)).0 replies)
unfolding transmit
transmit-InRange w works garbage unset replies few fit =
    if-InRange (open_socket works (initial garbage unset)).0.opened _ _
      (transmit_loop-InRange 0 w _ replies (omega arith) fit
        (initial-Counts works garbage unset (open_file w.disk)))
      (Counts-IsInRange 0 _ (omega arith) (initial-Counts works garbage unset unset'))
  where
    unset' : Stream
    unset' = (open_socket works (initial garbage unset)).0.message
