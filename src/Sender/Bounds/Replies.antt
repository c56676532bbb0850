-- ===== src/Sender/Bounds/Replies.antt =====
-- What a reply does to `notAcked_`.
use comnet.Base.{
  ◌⊎◌, ℕ, ◌+◌, ◌*◌, ◌/◌, ◌%◌, ◌-◌, ◌≤◌, ◌<◌, ◌^◌, ◌≡◌, refl, sym, ap, ◌∙◌, subst, true, inl, inr,
  arith, Bool-cases, Option-cases, if_true, if_false, u32, ◌==◌,
}
use comnet.Base.Int.{ℤ, pos, pos_part, neg_part, ◌-ℤ◌}
use comnet.Packet.{Packet}
use comnet.Sender.{
  State, slow_start, congestion_avoidance, fast_recovery, Sender, World, Progress, going, failing,
  find_time,
}
use comnet.Sender.Window.{process_timeout}
use comnet.Sender.Replies.{
  Reply, nothing, reply, Status, is_new_ack, update_rtt, accept_ack, count_dup, halve, settle,
  third_dup, grow_slow_start, grow_avoidance, leave_recovery, inflate, receive,
}
use comnet.Sender.Branches.{grow, on_dup, receive_in_cases}
use comnet.Sender.Reno.Grows.{FitsWord}
use comnet.Sender.Bounds.{Owes, AllOwe, retransmit-AllOwe}

abbrev OwesNext : ℕ → Sender × Status → Type 0
OwesNext n out = Owes (n + 1) out.0

settle-Owes : (n : ℕ) (p : Progress) → AllOwe n p → Owes n (settle p).0
unfolding settle
settle-Owes n (going s) h = h
settle-Owes n (failing s) h = h

third_dup-Owes :
    (n : ℕ) (w : World) (s : Sender)
    → s.cwnd ≤ n + 10
    → Owes n s
    → Owes (n + 1) (third_dup w (count_dup s)).0
unfolding third_dup count_dup halve
third_dup-Owes n w s window h = elim (Bool-cases (s.dup_ack_count + 1 == 3)) [
  | inl third ↦ subst (OwesNext n) (sym (if_true _ _ _ third)) (
      settle-Owes (n + 1) _ (
        retransmit-AllOwe (n + 1) w (halve (count_dup s))
          (record { above = few; below = omega arith }) room))
  | inr fewer ↦
      subst (OwesNext n) (sym (if_false _ _ _ fewer))
        (record { above = omega (arith, h.above); below = omega (arith, h.below) })
]
  where
    room : s.cwnd / 2 * 100 / 100 + 3 - 3 < n + 1 + 30
    room = omega (arith, window)

    few : s.cwnd / 2 * 100 / 100 + 3 - 3 ≤ n + 1 + 30
    few = omega (arith, window)

on_dup-Owes :
    (n : ℕ) (st : State) (w : World) (s : Sender)
    → s.cwnd ≤ n + 10
    → Owes n s
    → Owes (n + 1) (on_dup st w s).0
unfolding on_dup inflate count_dup
on_dup-Owes n slow_start w s window h = third_dup-Owes n w s window h
on_dup-Owes n congestion_avoidance w s window h = third_dup-Owes n w s window h
on_dup-Owes n fast_recovery w s window h = record {
  above = omega (arith, h.above);
  below = omega (arith, h.below);
}

accept_ack-owed :
    (w : World) (s : Sender) (p : Packet)
    → ((accept_ack w s p).not_acked ≡ s.not_acked) × ((accept_ack w s p).acked_position ≡ p.ack_num)
unfolding accept_ack update_rtt
accept_ack-owed w s p = elim (Option-cases (find_time p.seq_num s.send_times)) [
  | inl e ↦ rw (e, update_rtt) (refl, refl)
  | inr (t, e) ↦ rw (e, update_rtt) (refl, refl)
]

-- One segment less, or all that fast recovery waited for.
paid :
    (n acked ack : ℕ) (z : ℤ)
    → pos_part z ≤ n + 30
    → neg_part z * 100 ≤ n * 100 + acked
    → acked < ack
    → (pos_part (z -ℤ pos 1) ≤ n + 1 + 30) × (neg_part (z -ℤ pos 1) * 100 ≤ (n + 1) * 100 + ack)
unfolding ◌-ℤ◌
paid n acked ack z above below new = (ground arith, ground arith)

paid_all :
    (n acked ack : ℕ) (z : ℤ)
    → pos_part z ≤ n + 30
    → neg_part z * 100 ≤ n * 100 + acked
    → acked < ack
    → ack < 2 ^ 32
    → let left = z -ℤ pos (u32 (ack + (2 ^ 32 - acked % 2 ^ 32)) / 100) in
      (pos_part left ≤ n + 1 + 30) × (neg_part left * 100 ≤ (n + 1) * 100 + ack)
unfolding ◌-ℤ◌
paid_all n acked ack z above below new fits = (ground arith, ground arith)

grow-owed :
    (st : State) (temp ack : ℕ) (s : Sender)
    → (grow st temp ack s).acked_position ≡ s.acked_position
unfolding grow grow_slow_start grow_avoidance leave_recovery
grow-owed slow_start temp ack s = ground arith
grow-owed congestion_avoidance temp ack s = ground arith
grow-owed fast_recovery temp ack s = refl

grow-not_acked :
    (st : State) (temp ack : ℕ) (s : Sender)
    → ((grow st temp ack s).not_acked ≡ s.not_acked -ℤ pos 1)
      ⊎ ((grow st temp ack s).not_acked
          ≡ s.not_acked -ℤ pos (u32 (ack + (2 ^ 32 - temp % 2 ^ 32)) / 100))
unfolding grow grow_slow_start grow_avoidance leave_recovery
grow-not_acked slow_start temp ack s = inl (ground arith)
grow-not_acked congestion_avoidance temp ack s = inl (ground arith)
grow-not_acked fast_recovery temp ack s = inr refl

is_new_ack-lt : (s : Sender) (p : Packet) → is_new_ack s p ≡ true → s.acked_position < p.ack_num
unfolding is_new_ack
is_new_ack-lt s p e = ground arith

new-Owes :
    (n : ℕ) (st : State) (w : World) (s : Sender) (p : Packet)
    → p.ack_num < 2 ^ 32
    → Owes n s
    → s.acked_position < p.ack_num
    → Owes (n + 1) (grow st s.acked_position p.ack_num (accept_ack w s p))
new-Owes n st w s p fits h new = elim (grow-not_acked st s.acked_position p.ack_num a) [
  | inl one ↦ owes (one ∙ ap (λ z. z -ℤ pos 1) owed.0) (paid n _ _ s.not_acked h.above h.below new)
  | inr all ↦
      owes
        (all
          ∙ ap (λ z. z -ℤ pos (u32 (p.ack_num + (2 ^ 32 - s.acked_position % 2 ^ 32)) / 100))
              owed.0)
        (paid_all n _ _ s.not_acked h.above h.below new fits)
]
  where
    a : Sender
    a = accept_ack w s p

    owed : (a.not_acked ≡ s.not_acked) × (a.acked_position ≡ p.ack_num)
    owed = accept_ack-owed w s p

    owes :
        {z : ℤ}
        → (grow st s.acked_position p.ack_num a).not_acked ≡ z
        → (pos_part z ≤ n + 1 + 30) × (neg_part z * 100 ≤ (n + 1) * 100 + p.ack_num)
        → Owes (n + 1) (grow st s.acked_position p.ack_num a)
    owes e k = record {
      above = rw e k.0;
      below = rw (e, grow-owed st s.acked_position p.ack_num a, owed.1) k.1;
    }

pub receive-Owes :
    (n : ℕ) (w : World) (s : Sender) (r : Reply)
    → FitsWord r
    → s.cwnd ≤ n + 10
    → Owes n s
    → Owes (n + 1) (receive w s r).0
unfolding receive
receive-Owes n w s nothing fits window h =
    unfold process_timeout in record { above = omega arith; below = omega arith }
receive-Owes n w s (reply p) fits window h =
    receive_in_cases (OwesNext n) s.state w s p later (on_dup-Owes n s.state w s window h)
      (λ new. new-Owes n s.state w s p fits h (is_new_ack-lt s p new)) later
  where
    later : Owes (n + 1) s
    later = record { above = omega (arith, h.above); below = omega (arith, h.below) }
