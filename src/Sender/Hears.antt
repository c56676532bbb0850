-- ===== src/Sender/Hears.antt =====
-- The acknowledgements that take a transfer on and to its end.
use comnet.Base.{◌<◌, ◌≡◌, ap, ◌∙◌, true, false, arith, leb, if_true, lt→ltb}
use comnet.Packet.{Packet}
use comnet.Sender.{State, slow_start, congestion_avoidance, fast_recovery, Sender, World}
use comnet.Sender.Replies.{
  reply, finished, normal, final_ack, is_dup_ack, is_new_ack, grow_slow_start, accept_ack,
  ss_receive, ca_receive, fr_receive, receive_in, receive,
}

-- A new acknowledgement in slow start.
pub receive-new :
    (w : World) (s : Sender) (p : Packet)
    → s.state ≡ slow_start
    → p.ack ≡ true
    → p.fin ≡ false
    → s.acked_position < p.ack_num
    → (s' : Sender) × (receive w s (reply p) ≡ (s', normal)) × (s'.acked_position ≡ p.ack_num)
unfolding receive
receive-new w s p starting ack open_end new =
    (grow_slow_start (accept_ack w s p), ap (λ st. receive_in st w s p) starting ∙ taken, kept)
  where
    not_dup : leb p.ack_num s.acked_position ≡ false
    not_dup = ground arith

    taken : receive_in slow_start w s p ≡ (grow_slow_start (accept_ack w s p), normal)
    taken =
        unfold receive_in ss_receive final_ack is_dup_ack is_new_ack in
        rw (open_end, ack, not_dup, lt→ltb _ _ new)

    kept : (grow_slow_start (accept_ack w s p)).acked_position ≡ p.ack_num
    kept = unfold grow_slow_start accept_ack in ground arith

-- The final acknowledgement, in every state.
pub receive-final :
    (w : World) (s : Sender) (p : Packet)
    → p.ack ≡ true
    → p.fin ≡ true
    → receive w s (reply p) ≡ (s, finished)
unfolding receive
receive-final w s p ack fin = in_state s.state
  where
    final : final_ack p ≡ true
    final = unfold final_ack in rw (ack, fin)

    in_state : (st : State) → receive_in st w s p ≡ (s, finished)
    in_state slow_start = unfold receive_in ss_receive in if_true _ _ _ final
    in_state congestion_avoidance = unfold receive_in ca_receive in if_true _ _ _ final
    in_state fast_recovery = unfold receive_in fr_receive in if_true _ _ _ final
