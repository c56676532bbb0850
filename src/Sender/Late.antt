-- ===== src/Sender/Late.antt =====
-- An acknowledgement from before a timeout, of bytes that the stream has still to come to again.
use comnet.Base.{ℕ, ◌+◌, ◌-◌, ◌<◌, ◌^◌, ◌≡◌, ◌≢◌, refl, false, arith, inl, inr, Option-cases}
use comnet.Packet.{Packet}
use comnet.Stream.{Stream, seek, tell}
use comnet.Sender.{Sender, World, find_time}
use comnet.Sender.Replies.{update_rtt, skip_acked, accept_ack}

update_rtt-kept :
    (w : World) (s : Sender) (seq : ℕ)
    → ((update_rtt w s seq).message ≡ s.message)
      × ((update_rtt w s seq).file_position ≡ s.file_position)
unfolding update_rtt
update_rtt-kept w s seq = elim (Option-cases (find_time seq s.send_times)) [
  | inl e ↦ rw (e, update_rtt) (refl, refl)
  | inr (t, e) ↦ rw (e, update_rtt) (refl, refl)
]

pub skip_acked-late :
    (ack : ℕ) (m : Stream)
    → m.failing ≡ false
    → 0 < m.position
    → m.position + 1 < ack
    → ack < 2 ^ 32
    → (skip_acked ack m).position ≡ ack - 1
unfolding skip_acked tell seek
skip_acked-late ack m works begun late small = ground arith

-- Where the stream stands at `filePosition_`, past the start of the file, an acknowledgement of
-- bytes behind that place moves the stream but not `filePosition_`, so that the datagrams from
-- then on carry bytes under sequence numbers that are not theirs.
pub accept_ack-late :
    (w : World) (s : Sender) (p : Packet)
    → s.message.failing ≡ false
    → s.message.position ≡ s.file_position
    → 0 < s.message.position
    → s.message.position + 1 < p.ack_num
    → p.ack_num < 2 ^ 32
    → ((accept_ack w s p).message.position ≡ p.ack_num - 1)
      × ((accept_ack w s p).message.position ≢ (accept_ack w s p).file_position)
unfolding accept_ack
accept_ack-late w s p works aligned begun late small =
    (moved, λ e. omega (arith, moved, e, (update_rtt-kept w s p.seq_num).1))
  where
    moved : (skip_acked p.ack_num (update_rtt w s p.seq_num).message).position ≡ p.ack_num - 1
    moved =
        rw (update_rtt-kept w s p.seq_num).0
          (skip_acked-late p.ack_num s.message works begun late small)
