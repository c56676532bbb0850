-- ===== src/Sender/Mislabels.antt =====
-- The datagram after a late acknowledgement.
use comnet.Base.{
  NonZero, ℕ, ◌+◌, ◌-◌, ◌≤◌, ◌<◌, ◌≡◌, refl, sym, ap, ◌∙◌, subst, true, false, List, [], ◌∷◌, ◌++◌,
  arith, length, take, leb, ltb, lt→ltb, Option-cases, inl, inr, if_true, c_string, resize, u32,
}
use comnet.Base.Int.{pos, ◌-ℤ◌, ltb_ℤ}
use comnet.Base.Text.{take-resize-c_string}
use comnet.Packet.{Packet}
use comnet.Stream.{Stream, seek, tell, read, chunk, read_lem, chunk-working}
use comnet.Sender.Segments.{bytes_sent_lem, IsText, bytes_at, bytes_at-NonZero, length-bytes_at}
use comnet.Sender.Sync.{launch-full}
use comnet.Sender.Window.{send_chunk, advance}
use comnet.Sender.{
  State, slow_start, congestion_avoidance, fast_recovery, Sender, World, going, mms_bytes,
  find_time, segment, send_data, bytes_sent, cleared,
}
use comnet.Sender.Replies.{
  reply, Status, normal, final_ack, is_dup_ack, is_new_ack, update_rtt, skip_acked, accept_ack,
  grow_slow_start, grow_avoidance, leave_recovery, ss_receive, ca_receive, fr_receive, receive_in,
  receive,
}
use comnet.Sender.Branches.{grow}
use comnet.Sender.Late.{skip_acked-late}

-- A new acknowledgement, in any state.
receive-grows :
    (w : World) (s : Sender) (p : Packet)
    → p.ack ≡ true
    → p.fin ≡ false
    → s.acked_position < p.ack_num
    → receive w s (reply p) ≡ (grow s.state s.acked_position p.ack_num (accept_ack w s p), normal)
unfolding receive
receive-grows w s p ack open_end new = in_state s.state
  where
    not_dup : leb p.ack_num s.acked_position ≡ false
    not_dup = ground arith

    in_state :
        (st : State)
        → receive_in st w s p ≡ (grow st s.acked_position p.ack_num (accept_ack w s p), normal)
    in_state slow_start =
        unfold receive_in ss_receive final_ack is_dup_ack is_new_ack grow in
        rw (open_end, ack, not_dup, lt→ltb _ _ new) refl
    in_state congestion_avoidance =
        unfold receive_in ca_receive final_ack is_dup_ack is_new_ack grow in
        rw (open_end, ack, not_dup, lt→ltb _ _ new) refl
    in_state fast_recovery =
        unfold receive_in fr_receive final_ack is_dup_ack is_new_ack grow in
        rw (open_end, ack, not_dup, lt→ltb _ _ new) refl

-- What the acknowledgement moves.
abbrev Moved : ℕ → Sender → Sender → Type 0
Moved ack s s' =
    (s'.message ≡ skip_acked ack s.message)
    × (s'.file_position ≡ s.file_position)
    × (s'.sent ≡ s.sent)

accept_ack-Moved : (w : World) (s : Sender) (p : Packet) → Moved p.ack_num s (accept_ack w s p)
unfolding accept_ack update_rtt
accept_ack-Moved w s p = elim (Option-cases (find_time p.seq_num s.send_times)) [
  | inl e ↦ rw (e, update_rtt) (refl, refl, refl)
  | inr (t, e) ↦ rw (e, update_rtt) (refl, refl, refl)
]

grow-Moved :
    (st : State) (temp ack : ℕ) (s a : Sender) → Moved ack s a → Moved ack s (grow st temp ack a)
unfolding grow grow_slow_start grow_avoidance leave_recovery
grow-Moved slow_start temp ack s a h = ground (arith, h)
grow-Moved congestion_avoidance temp ack s a h = ground (arith, h)
grow-Moved fast_recovery temp ack s a h = h

-- A full chunk goes out from where the stream stands, under the number that `filePosition_` gives.
record Sends (w : World) (t s' : Sender) (q : Packet) (k : ℕ) : Type 0 where
  sends : send_chunk w t ≡ going s'
  sent : s'.sent ≡ t.sent ++ q ∷ []
  number : q.seq_num ≡ u32 (t.file_position + 1)
  bytes : take 100 q.payload ≡ bytes_at w.disk k

module _ (w : World) (text : IsText w.disk) (t : Sender) (k : ℕ) (works : w.works t.asked ≡ true)
    (ready : t.message.failing ≡ false) (place : t.message.position ≡ k)
    (room : k + 100 ≤ length w.disk.contents) where
  abbrev found : List ℕ
  found = chunk w.disk mms_bytes t.message

  abbrev loaded : Sender
  loaded = record t { message = read w.disk mms_bytes t.message }

  found_lem : found ≡ bytes_at w.disk k
  found_lem = chunk-working w.disk mms_bytes t.message ready ∙ ap (bytes_at w.disk) place

  full : length found ≡ 100
  full = omega (arith, ap length found_lem, length-bytes_at w.disk k)

  more : loaded.message.failing ≡ false
  more = (read_lem w.disk mms_bytes t.message).0 ∙ ap (λ n. ltb n 100) full

  solid : NonZero found
  solid = subst NonZero (sym found_lem) (bytes_at-NonZero w.disk text k)

  abbrev memory : List ℕ
  memory = cleared w loaded found

  good : ltb_ℤ (bytes_sent w loaded memory) (pos 0) ≡ false
  good = ap (λ n. ltb_ℤ n (pos 0)) (bytes_sent_lem w loaded found solid works full) ∙ enough _
    where
      enough : (n : ℕ) → ltb_ℤ (pos (100 + n) -ℤ pos 2) (pos 0) ≡ false
      enough n = unfold ◌-ℤ◌ in ground arith

  mislabelled : (s' : Sender) × (q : Packet) × Sends w t s' q k
  unfolding send_chunk
  mislabelled = (
    advance (send_data w loaded memory mms_bytes) (bytes_sent w loaded memory),
    segment loaded memory mms_bytes,
    record {
      sends = launch-full w loaded found more good;
      sent = unfold send_data in ap (λ (x : Sender). x.sent) (if_true _ _ _ works);
      number = unfold segment in refl;
      bytes =
          unfold segment in
          (ap (λ n. take n (resize 100 (c_string memory))) (sym full)
            ∙ take-resize-c_string 100 found _ (omega (arith, full)) solid
            ∙ found_lem);
    },
  )

skip_acked-failing : (ack : ℕ) (m : Stream) → (skip_acked ack m).failing ≡ m.failing
unfolding skip_acked seek tell
skip_acked-failing ack m = ground arith

-- After a timeout has taken the stream back, past the start of the file, an acknowledgement from
-- before of bytes that it has still to come to: in every state, where a full chunk follows and
-- `sendTo` works, the next datagram that the loop sends carries the bytes from the acknowledged
-- ones on, under the number of `filePosition_`, which is lower.
pub receive-mislabels :
    (w : World) (s : Sender) (p : Packet)
    → IsText w.disk
    → ((n : ℕ) → w.works n ≡ true)
    → p.ack ≡ true
    → p.fin ≡ false
    → s.acked_position < p.ack_num
    → s.message.failing ≡ false
    → s.message.position ≡ s.file_position
    → 0 < s.message.position
    → s.message.position + 1 < p.ack_num
    → p.ack_num + 99 ≤ length w.disk.contents
    → (s' : Sender) × (q : Packet) × (send_chunk w (receive w s (reply p)).0 ≡ going s')
      × (s'.sent ≡ s.sent ++ q ∷ [])
      × (take 100 q.payload ≡ bytes_at w.disk (p.ack_num - 1))
      × (q.seq_num ≡ s.file_position + 1)
      × (q.seq_num < p.ack_num)
receive-mislabels w s p text works ack open_end new ready aligned begun late room = (
  next.0,
  next.1,
  ap (send_chunk w) heard ∙ next.2.sends,
  next.2.sent ∙ ap (λ l. l ++ next.1 ∷ []) moved.2,
  next.2.bytes,
  number,
  omega (arith, number, aligned, late),
)
  where
    t : Sender
    t = grow s.state s.acked_position p.ack_num (accept_ack w s p)

    heard : (receive w s (reply p)).0 ≡ t
    heard = ap (λ (o : Sender × Status). o.0) (receive-grows w s p ack open_end new)

    moved : Moved p.ack_num s t
    moved = grow-Moved s.state s.acked_position p.ack_num s _ (accept_ack-Moved w s p)

    next : (s' : Sender) × (q : Packet) × Sends w t s' q (p.ack_num - 1)
    next =
        mislabelled w text t (p.ack_num - 1) (works t.asked)
          (ap (λ (m : Stream). m.failing) moved.0 ∙ skip_acked-failing p.ack_num s.message ∙ ready)
          (ap (λ (m : Stream). m.position) moved.0
            ∙ skip_acked-late p.ack_num s.message ready begun late
                (omega (arith, text.small, room)))
          (omega (arith, room, late))

    number : next.1.seq_num ≡ s.file_position + 1
    number =
        next.2.number
        ∙ ap (λ n. u32 (n + 1)) moved.1
        ∙ omega (arith, aligned, late, room, text.small)
