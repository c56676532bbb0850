-- ===== src/Sender/Reno/Implements.antt =====
-- The sender as an implementation of Reno.
use comnet.Base.{
  ℕ, ◌+◌, ◌*◌, ◌/◌, ◌≡◌, refl, sym, ap, ◌∙◌, Bool, true, false, List, inl, inr, ltb, leb, arith,
  ◌==◌, if◌then◌else◌, if_true, if_false, Bool-cases, Option-cases,
}
use comnet.Packet.{Packet}
use comnet.Base.{length, u32, ◌≢◌}
use comnet.Base.Int.{pos, ltb_ℤ}
use comnet.Stream.{seek, read, chunk}
use comnet.Sender.Branches.{grow, on_dup}
use comnet.Sender.{
  mms_bytes, bytes_sent, uncleared, State, slow_start, congestion_avoidance, fast_recovery, Sender,
  World, Progress, going, failing, send_data, find_time,
}
use comnet.Sender.Window.{
  before_acked, resume_point, retransmit_missing_segment, resend, relaunch, process_timeout,
}
use comnet.Sender.Replies.{
  Reply, nothing, reply, Status, final_ack, is_dup_ack, is_new_ack, update_rtt, accept_ack,
  count_dup, halve, settle, third_dup, grow_slow_start, grow_avoidance, leave_recovery, ss_receive,
  ca_receive, inflate, fr_receive, receive_in, receive,
}
use comnet.Sender.Reno.{
  Control, control, last, repeated, other, fresh, event_of, count_repeated, on_repeated, on_fresh,
  reno,
}

pub send_data-control :
    (w : World) (s : Sender) (memory : List ℕ) (len : ℕ)
    → control (send_data w s memory len) ≡ control s
unfolding send_data
send_data-control w s memory len = elim (Bool-cases (w.works s.asked)) [
  | inl ok ↦ rw ok
  | inr bad ↦ rw bad
]

abbrev pub Controls : Control → Progress → Type 0
Controls c (going s) = control s ≡ c
Controls c (failing s) = control s ≡ c

pub if-Controls :
    (c : Control) (b : Bool) (p q : Progress)
    → Controls c p
    → Controls c q
    → Controls c (if b then p else q)
if-Controls c true p q h k = h
if-Controls c false p q h k = k

relaunch-control :
    (w : World) (s : Sender) (chunk : List ℕ) (start : ℕ)
    → Controls (control s) (relaunch w s chunk start)
unfolding relaunch
relaunch-control w s chunk start =
    let memory = uncleared w s chunk in
    let len = if s.message.failing then length chunk else mms_bytes in
    let s' = send_data w s memory len in
    let kept = send_data-control w s memory len in
    if-Controls (control s) (ltb_ℤ (bytes_sent w s memory) (pos 0)) (failing s')
      (going (record s' { message = seek start s'.message; file_position = u32 start })) kept kept

pub retransmit-control :
    (w : World) (s : Sender) → Controls (control s) (retransmit_missing_segment w s)
unfolding retransmit_missing_segment resend
retransmit-control w s =
    relaunch-control w
      (record s {
        message = read w.disk mms_bytes (seek (before_acked s) (resume_point w s).0);
        file_position = before_acked s;
      })
      (chunk w.disk mms_bytes (seek (before_acked s) (resume_point w s).0)) (resume_point w s).1

settle-control : (c : Control) (p : Progress) → Controls c p → control (settle p).0 ≡ c
unfolding settle
settle-control c (going s) h = h
settle-control c (failing s) h = h

third_dup-control :
    (w : World) (s : Sender) → control (third_dup w (count_dup s)).0 ≡ count_repeated (control s)
unfolding third_dup count_dup count_repeated halve
third_dup-control w s = elim (Bool-cases (s.dup_ack_count == 2)) [
  | inl second ↦
      ap {A = Sender × Status} (λ out. control out.0) (if_true _ _ _ (third (ground arith)))
      ∙ settle-control _ _ (retransmit-control w (halve (count_dup s)))
      ∙ halved (ground arith)
      ∙ sym (if_true _ _ _ second)
  | inr fewer ↦
      ap {A = Sender × Status} (λ out. control out.0) (if_false _ _ _ (not_third (ground arith)))
      ∙ sym (if_false _ _ _ fewer)
]
  where
    third : s.dup_ack_count ≡ 2 → (s.dup_ack_count + 1 == 3) ≡ true
    third e = ground arith

    not_third : s.dup_ack_count ≢ 2 → (s.dup_ack_count + 1 == 3) ≡ false
    not_third e = ground arith

    whole : s.cwnd / 2 * 100 / 100 ≡ s.cwnd / 2
    whole = omega arith

    halved :
        s.dup_ack_count ≡ 2
        → control (halve (count_dup s)) ≡ record (control s) {
          state = fast_recovery;
          cwnd = s.cwnd / 2 + 3;
          ssthresh = s.cwnd / 2 * 100;
          dups = 3;
        }
    halved e = rw (whole, e)

update_rtt-control : (w : World) (s : Sender) (seq : ℕ) → control (update_rtt w s seq) ≡ control s
unfolding update_rtt
update_rtt-control w s seq = elim (Option-cases (find_time seq s.send_times)) [
  | inl e ↦ rw (e, update_rtt)
  | inr (t, e) ↦ rw (e, update_rtt)
]

accept_ack-control :
    (w : World) (s : Sender) (p : Packet)
    → control (accept_ack w s p) ≡ record (control s) { dups = 0; acked = p.ack_num }
unfolding accept_ack
accept_ack-control w s p =
    ap {A = Control} (λ c. record c { dups = 0; acked = p.ack_num })
      (update_rtt-control w s p.seq_num)

on_dup-control :
    (w : World) (s : Sender) (st : State) → control (on_dup st w s).0 ≡ on_repeated st (control s)
unfolding on_dup on_repeated inflate count_dup
on_dup-control w s slow_start = third_dup-control w s
on_dup-control w s congestion_avoidance = third_dup-control w s
on_dup-control w s fast_recovery = refl

grow-control :
    (s : Sender) (st : State) (temp ack : ℕ)
    → control (grow st temp ack s) ≡ on_fresh st (control s)
unfolding grow on_fresh grow_slow_start grow_avoidance leave_recovery
grow-control s slow_start temp ack = elim (Bool-cases (leb s.ssthresh ((s.cwnd + 1) * 100))) [
  | inl reached ↦
      let above : ltb ((s.cwnd + 1) * 100) s.ssthresh ≡ false = ground arith in rw (reached, above)
  | inr below ↦
      let under : ltb ((s.cwnd + 1) * 100) s.ssthresh ≡ true = ground arith in rw (below, under)
]
grow-control s congestion_avoidance temp ack = elim (Bool-cases (s.cwnd == s.ca_ack_count + 1)) [
  | inl full ↦ let full' : (s.ca_ack_count + 1 == s.cwnd) ≡ true = ground arith in rw (full, full')
  | inr part ↦ let part' : (s.ca_ack_count + 1 == s.cwnd) ≡ false = ground arith in rw (part, part')
]
grow-control s fast_recovery temp ack = refl

-- The code and the specification make the same tests in the same order.
ladder :
    {A : Type 0} (view : A → Control) (c : Control) (f d n : Bool) (ack : ℕ) {a x y z : A}
    → view a ≡ reno c last
    → view x ≡ reno c repeated
    → view y ≡ reno c (fresh ack)
    → view z ≡ reno c other
    → view (if f then a else if d then x else if n then y else z)
      ≡ reno c (if f then last else if d then repeated else if n then fresh ack else other)
ladder view c true d n ack ea ex ey ez = ea
ladder view c false true n ack ea ex ey ez = ex
ladder view c false false true ack ea ex ey ez = ey
ladder view c false false false ack ea ex ey ez = ez

repeats :
    (w : World) (s : Sender) (st : State)
    → s.state ≡ st
    → control (on_dup st w s).0 ≡ reno (control s) repeated
unfolding reno
repeats w s st e = on_dup-control w s st ∙ ap (λ x. on_repeated x (control s)) (sym e)

renews :
    (w : World) (s : Sender) (p : Packet) (st : State)
    → s.state ≡ st
    → control (grow st s.acked_position p.ack_num (accept_ack w s p))
      ≡ reno (control s) (fresh p.ack_num)
unfolding reno
renews w s p st e =
    grow-control (accept_ack w s p) st s.acked_position p.ack_num
    ∙ ap (on_fresh st) (accept_ack-control w s p)
    ∙ ap (λ x. on_fresh x (record (control s) { dups = 0; acked = p.ack_num })) (sym e)

receive_in-control :
    (w : World) (s : Sender) (p : Packet) (st : State)
    → s.state ≡ st
    → control (receive_in st w s p).0 ≡ reno (control s) (event_of s.acked_position (reply p))
unfolding receive_in ss_receive ca_receive fr_receive is_dup_ack is_new_ack on_dup grow reno
receive_in-control w s p slow_start e =
    ladder {A = Sender × Status} (λ out. control out.0) (control s) (final_ack p) (is_dup_ack s p)
      (is_new_ack s p) p.ack_num refl (repeats w s slow_start e) (renews w s p slow_start e) refl
receive_in-control w s p congestion_avoidance e =
    ladder {A = Sender × Status} (λ out. control out.0) (control s) (final_ack p) (is_dup_ack s p)
      (is_new_ack s p) p.ack_num refl (repeats w s congestion_avoidance e)
      (renews w s p congestion_avoidance e) refl
receive_in-control w s p fast_recovery e =
    ladder {A = Sender × Status} (λ out. control out.0) (control s) (final_ack p) (is_dup_ack s p)
      (is_new_ack s p) p.ack_num refl (repeats w s fast_recovery e) (renews w s p fast_recovery e)
      refl

-- The sender implements Reno: in every state, whatever comes and also where the retransmission
-- fails, the windows, the threshold and the counters change as the specification says for the
-- event that the reply is.
pub receive-control :
    (w : World) (s : Sender) (r : Reply)
    → control (receive w s r).0 ≡ reno (control s) (event_of s.acked_position r)
unfolding receive process_timeout reno
receive-control w s nothing = rw half
  where
    half : s.cwnd * 100 / 2 ≡ s.cwnd * 50
    half = omega arith
receive-control w s (reply p) = receive_in-control w s p s.state refl
