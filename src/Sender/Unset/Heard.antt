-- ===== src/Sender/Unset/Heard.antt =====
-- What a reply does, whatever `caAckCount_` is outside of congestion avoidance.
use comnet.Base.{
  ℕ, ◌≡◌, ◌≢◌, ◌⊎◌, refl, sym, ap, ◌∙◌, subst, Bool, true, false, inl, inr, Bool-cases,
  Option-cases, if◌then◌else◌, leb, ◌==◌, ◌+◌, ◌*◌,
}
use comnet.Packet.{Packet}
use comnet.Sender.{
  State, slow_start, congestion_avoidance, fast_recovery, Sender, World, Progress, going, failing,
  find_time,
}
use comnet.Sender.Window.{retransmit_missing_segment, process_timeout}
use comnet.Sender.Replies.{
  Reply, nothing, reply, Status, final_ack, is_dup_ack, is_new_ack, update_rtt, accept_ack,
  count_dup, halve, settle, third_dup, grow_slow_start, leave_recovery, ss_receive, inflate,
  fr_receive, receive_in, receive,
}
use comnet.Sender.Reno.{control}
use comnet.Sender.Reno.Implements.{Controls, retransmit-control}
use comnet.Sender.Unset.{recount, recount_progress, retransmit-recount}

module _ (g : ℕ) (w : World) where
  -- The same sender, but for a `caAckCount_` that is not read any more.
  abbrev pub Alike : Sender → Sender → Type 0
  Alike s s' = (s' ≡ s) ⊎ ((s' ≡ recount g s) × (s.state ≢ congestion_avoidance))

  abbrev pub AlikeOut : Sender × Status → Sender × Status → Type 0
  AlikeOut x x' = (x'.1 ≡ x.1) × Alike x.0 x'.0

  ladder :
      (f d n : Bool) {a x y z a' x' y' z' : Sender × Status}
      → AlikeOut a a'
      → AlikeOut x x'
      → AlikeOut y y'
      → AlikeOut z z'
      → AlikeOut
          (if f then a else if d then x else if n then y else z)
          (if f then a' else if d then x' else if n then y' else z')
  ladder true d n ha hx hy hz = ha
  ladder false true n ha hx hy hz = hx
  ladder false false true ha hx hy hz = hy
  ladder false false false ha hx hy hz = hz

  if-AlikeOut :
      (b : Bool) {x z x' z' : Sender × Status}
      → AlikeOut x x'
      → AlikeOut z z'
      → AlikeOut (if b then x else z) (if b then x' else z')
  if-AlikeOut true h k = h
  if-AlikeOut false h k = k

  abbrev pub Outside : Progress → Type 0
  Outside (going s) = s.state ≢ congestion_avoidance
  Outside (failing s) = s.state ≢ congestion_avoidance

  pub Controls-Outside :
      (s : Sender) (p : Progress)
      → s.state ≢ congestion_avoidance
      → Controls (control s) p
      → Outside p
  Controls-Outside s (going s') out k = λ e. out (sym (ap (λ c. c.state) k) ∙ e)
  Controls-Outside s (failing s') out k = λ e. out (sym (ap (λ c. c.state) k) ∙ e)

  settle-Alike : (p : Progress) → Outside p → AlikeOut (settle p) (settle (recount_progress g p))
  unfolding settle
  settle-Alike (going s) out = (refl, inr (refl, out))
  settle-Alike (failing s) out = (refl, inr (refl, out))

  third_dup-Alike :
      (s : Sender)
      → s.state ≢ congestion_avoidance
      → AlikeOut (third_dup w (count_dup s)) (third_dup w (count_dup (recount g s)))
  unfolding third_dup count_dup halve
  third_dup-Alike s out =
      if-AlikeOut (s.dup_ack_count + 1 == 3)
        (subst (λ p. AlikeOut (settle (retransmit_missing_segment w halved)) (settle p))
          (sym (retransmit-recount g w halved))
          (settle-Alike (retransmit_missing_segment w halved)
            (Controls-Outside halved _ (λ e. cc) (retransmit-control w halved))))
        (refl, inr (refl, out))
    where
      halved : Sender
      halved = halve (count_dup s)

  accept_ack-recount :
      (s : Sender) (p : Packet) → accept_ack w (recount g s) p ≡ recount g (accept_ack w s p)
  unfolding accept_ack update_rtt
  accept_ack-recount s p = elim (Option-cases (find_time p.seq_num s.send_times)) [
    | inl e ↦ rw (e, update_rtt) refl
    | inr (t, e) ↦ rw (e, update_rtt) refl
  ]

  accept_ack-state : (s : Sender) (p : Packet) → (accept_ack w s p).state ≡ s.state
  unfolding accept_ack update_rtt
  accept_ack-state s p = elim (Option-cases (find_time p.seq_num s.send_times)) [
    | inl e ↦ rw (e, update_rtt) refl
    | inr (t, e) ↦ rw (e, update_rtt) refl
  ]

  grow_slow_start-Alike :
      (a : Sender)
      → a.state ≢ congestion_avoidance
      → Alike (grow_slow_start a) (grow_slow_start (recount g a))
  unfolding grow_slow_start
  grow_slow_start-Alike a out = elim (Bool-cases (leb a.ssthresh ((a.cwnd + 1) * 100))) [
    | inl e ↦ inl (rw (e, grow_slow_start) refl)
    | inr e ↦ rw (e, grow_slow_start) (inr (refl, out))
  ]

  receive_in-Alike :
      (s : Sender) (p : Packet) (st : State)
      → s.state ≡ st
      → s.state ≢ congestion_avoidance
      → AlikeOut (receive_in st w s p) (receive_in st w (recount g s) p)
  unfolding receive_in ss_receive fr_receive is_dup_ack is_new_ack inflate count_dup leave_recovery
  receive_in-Alike s p slow_start e out =
      ladder (final_ack p) (is_dup_ack s p) (is_new_ack s p) (refl, inr (refl, out))
        (third_dup-Alike s out)
        (
          refl,
          subst (λ a. Alike (grow_slow_start (accept_ack w s p)) (grow_slow_start a))
              (sym (accept_ack-recount s p))
              (grow_slow_start-Alike (accept_ack w s p) λ h. out (sym (accept_ack-state s p) ∙ h)),
        )
        (refl, inr (refl, out))
  receive_in-Alike s p congestion_avoidance e out = absurd (out e)
  receive_in-Alike s p fast_recovery e out =
      ladder (final_ack p) (is_dup_ack s p) (is_new_ack s p) (refl, inr (refl, out))
        (refl, inr (refl, out))
        (refl, inl (ap (leave_recovery s.acked_position p.ack_num) (accept_ack-recount s p)))
        (refl, inr (refl, out))

  pub receive-Alike :
      (s s' : Sender) (r : Reply) → Alike s s' → AlikeOut (receive w s r) (receive w s' r)
  unfolding receive process_timeout
  receive-Alike s s' r (inl e) =
      (ap (λ x. (receive w x r).1) e, inl (ap (λ x. (receive w x r).0) e))
  receive-Alike s s' nothing (inr (e, out)) =
      subst (λ x. AlikeOut (receive w s nothing) (receive w x nothing)) (sym e)
        (refl, inr (refl, λ h. cc))
  receive-Alike s s' (reply p) (inr (e, out)) =
      subst (λ x. AlikeOut (receive w s (reply p)) (receive w x (reply p))) (sym e)
        (receive_in-Alike s p s.state refl out)
