-- ===== src/Sender/Closed.antt =====
-- What a reply does to the stream and `filePosition_`.
use comnet.Base.{
  ℕ, ◌+◌, ◌*◌, ◌^◌, ◌≤◌, ◌<◌, ◌≡◌, refl, sym, ◌∙◌, true, false, List, inl, inr, arith, length, leb,
  Option-cases, subst, ◌==◌, Bool-cases, if_true, if_false,
}
use comnet.Packet.{Packet}
use comnet.Stream.{Stream, seek, tell}
use comnet.Sender.Sync.{IsSynced, Keeps, Suits, AllSegments}
use comnet.Sender.Resending.{retransmit-Keeps, process_timeout-IsSynced}
use comnet.Sender.Replies.{
  Reply, nothing, reply, Status, finished, normal, error, is_new_ack, update_rtt, skip_acked,
  accept_ack, count_dup, halve, settle, third_dup, grow_slow_start, grow_avoidance, leave_recovery,
  inflate, receive,
}
use comnet.Sender.Branches.{grow, on_dup, receive_in_cases}
use comnet.Sender.{
  State, slow_start, congestion_avoidance, fast_recovery, Sender, World, Progress, going, failing,
  find_time,
}

-- An acknowledgement of bytes that the file has, and that the stream has come to. After a timeout
-- has taken the stream back, an acknowledgement from before need not be such.
pub record IsTimely (file : List ℕ) (s : Sender) (p : Packet) : Type 0 where
  pub within : p.ack_num ≤ length file + 1
  pub not_late : s.message.failing ≡ false → p.ack_num ≤ s.message.position + 1

-- Where the sender stands in the file.
abbrev Stands : Sender → Sender → Type 0
Stands s s' =
    (s'.message.position ≡ s.message.position)
    × (s'.message.failing ≡ s.message.failing)
    × (s'.file_position ≡ s.file_position)
    × (s'.sent ≡ s.sent)

skip_acked-timely :
    (ack : ℕ) (m : Stream)
    → ack < 2 ^ 32
    → (m.failing ≡ false → ack ≤ m.position + 1)
    → ((skip_acked ack m).position ≡ m.position) × ((skip_acked ack m).failing ≡ m.failing)
unfolding skip_acked tell seek
skip_acked-timely ack m small timely = ground arith

Stands-self : (s : Sender) → Stands s s
Stands-self s = (refl, refl, refl, refl)

update_rtt-Stands : (w : World) (s : Sender) (seq : ℕ) → Stands s (update_rtt w s seq)
unfolding update_rtt
update_rtt-Stands w s seq = elim (Option-cases (find_time seq s.send_times)) [
  | inl e ↦ rw (e, update_rtt) (Stands-self s)
  | inr (t, e) ↦ rw (e, update_rtt) (Stands-self s)
]

accept_ack-Stands :
    (w : World) (s : Sender) (p : Packet)
    → p.ack_num < 2 ^ 32
    → (s.message.failing ≡ false → p.ack_num ≤ s.message.position + 1)
    → Stands s (accept_ack w s p)
unfolding accept_ack
accept_ack-Stands w s p small timely =
    let u = update_rtt-Stands w s p.seq_num in
    let k =
      skip_acked-timely p.ack_num (update_rtt w s p.seq_num).message small
        (λ e. rw u.0 (timely (sym u.1 ∙ e))) in
    (k.0 ∙ u.0, k.1 ∙ u.1, u.2, u.3)

accept_ack_lem :
    (w : World) (s : Sender) (p : Packet) → (accept_ack w s p).acked_position ≡ p.ack_num
unfolding accept_ack
accept_ack_lem w s p = refl

is_new_ack-lt : (s : Sender) (p : Packet) → is_new_ack s p ≡ true → s.acked_position < p.ack_num
unfolding is_new_ack
is_new_ack-lt s p e = ground arith

-- Where the number of the last acknowledgement is kept as well.
abbrev Still : Sender → Sender → Type 0
Still s s' = Stands s s' × (s'.acked_position ≡ s.acked_position)

grow_slow_start-Still : (s : Sender) → Still s (grow_slow_start s)
unfolding grow_slow_start
grow_slow_start-Still s = elim (Bool-cases (leb s.ssthresh ((s.cwnd + 1) * 100))) [
  | inl e ↦ rw (e, grow_slow_start) (Stands-self s, refl)
  | inr e ↦ rw (e, grow_slow_start) (Stands-self s, refl)
]

grow_avoidance-Still : (s : Sender) → Still s (grow_avoidance s)
unfolding grow_avoidance
grow_avoidance-Still s = elim (Bool-cases (s.cwnd == s.ca_ack_count + 1)) [
  | inl e ↦ rw (e, grow_avoidance) (Stands-self s, refl)
  | inr e ↦ rw (e, grow_avoidance) (Stands-self s, refl)
]

grow-Still : (st : State) (temp ack : ℕ) (s : Sender) → Still s (grow st temp ack s)
unfolding grow leave_recovery
grow-Still slow_start temp ack s = grow_slow_start-Still s
grow-Still congestion_avoidance temp ack s = grow_avoidance-Still s
grow-Still fast_recovery temp ack s = (Stands-self s, refl)

IsSynced-Stands :
    {file : List ℕ} {s s' : Sender}
    → Stands s s'
    → 1 ≤ s'.acked_position
    → s'.acked_position ≤ length file + 1
    → IsSynced file s
    → IsSynced file s'
IsSynced-Stands {file} {s} {s'} k counted inside v = record {
  aligned = λ e. k.0 ∙ v.aligned (sym k.1 ∙ e) ∙ sym k.2;
  bounded = rw (k.1, k.2) v.bounded;
  counted = counted;
  inside = inside;
  segments = rw k.3 v.segments;
}

module _ (w : World) (suits : Suits w) where
  abbrev file : List ℕ
  file = w.disk.contents

  -- With an error `transmit` returns, so that only what was sent matters.
  abbrev pub After : Sender × Status → Type 0
  After (s, finished) = IsSynced file s
  After (s, normal) = IsSynced file s
  After (s, error) = AllSegments file s.sent

  settle-After : (p : Progress) → Keeps file p → After (settle p)
  unfolding settle
  settle-After (going s) k = k
  settle-After (failing s) k = k

  third_dup-After : (s : Sender) → IsSynced file s → After (third_dup w (count_dup s))
  unfolding third_dup count_dup halve
  third_dup-After s v = elim (Bool-cases (s.dup_ack_count + 1 == 3)) [
    | inl third ↦
        subst After (sym (if_true _ _ _ third)) (settle-After _ (retransmit-Keeps w suits _ halved))
    | inr other ↦ subst After (sym (if_false _ _ _ other)) counted
  ]
    where
      halved : IsSynced file (halve (count_dup s))
      halved = record {
        aligned = v.aligned;
        bounded = v.bounded;
        counted = v.counted;
        inside = v.inside;
        segments = v.segments;
      }

      counted : IsSynced file (count_dup s)
      counted = record {
        aligned = v.aligned;
        bounded = v.bounded;
        counted = v.counted;
        inside = v.inside;
        segments = v.segments;
      }

  on_dup-After : (st : State) (s : Sender) → IsSynced file s → After (on_dup st w s)
  unfolding on_dup inflate count_dup
  on_dup-After slow_start s v = third_dup-After s v
  on_dup-After congestion_avoidance s v = third_dup-After s v
  on_dup-After fast_recovery s v = record {
    aligned = v.aligned;
    bounded = v.bounded;
    counted = v.counted;
    inside = v.inside;
    segments = v.segments;
  }

  abbrev pub Timely : Sender → Reply → Type 0
  Timely s nothing = Unit {0}
  Timely s (reply p) = IsTimely file s p

  new-After :
      (st : State) (s : Sender) (p : Packet)
      → IsSynced file s
      → IsTimely file s p
      → is_new_ack s p ≡ true
      → IsSynced file (grow st s.acked_position p.ack_num (accept_ack w s p))
  new-After st s p v t new =
      IsSynced-Stands {s = accept_ack w s p} still.0 (rw (still.1, accept_ack_lem w s p) higher.0)
        (rw (still.1, accept_ack_lem w s p) higher.1) accepted
    where
      higher : (1 ≤ p.ack_num) × (p.ack_num ≤ length file + 1)
      higher = (omega (arith, is_new_ack-lt s p new), t.within)

      accepted : IsSynced file (accept_ack w s p)
      accepted =
          IsSynced-Stands {s = s}
            (accept_ack-Stands w s p (omega (arith, suits.text.small, t.within)) t.not_late)
            (rw (accept_ack_lem w s p) higher.0) (rw (accept_ack_lem w s p) higher.1) v

      still : Still (accept_ack w s p) (grow st s.acked_position p.ack_num (accept_ack w s p))
      still = grow-Still st s.acked_position p.ack_num (accept_ack w s p)

  -- For a file without NUL bytes below 2 ^ 31 bytes and a stack that holds exactly two bytes behind
  -- `packet_data`: a timeout, or an acknowledgement of bytes that the file has and that the stream
  -- has come to, keeps the stream where `filePosition_` says, and only segments of the file are
  -- sent, in every state of the congestion control and also where `transmit` fails.
  pub receive-After :
      (s : Sender) (r : Reply) → IsSynced file s → Timely s r → After (receive w s r)
  unfolding receive
  receive-After s nothing v t = process_timeout-IsSynced w suits s v
  receive-After s (reply p) v t =
      receive_in_cases After s.state w s p v (on_dup-After s.state s v)
        (λ new. new-After s.state s p v t new) v
