-- ===== src/System/Examples.antt =====
-- A transfer of three bytes, from its start to the receiver with FIN.
use comnet.Base.{◌≡◌, refl, [], ◌∷◌, inl}
use comnet.Sender
use comnet.Sender.Replies
use comnet.Sender.Replies.{reply, finished, final_ack, receive_in, ss_receive}
use comnet.System.Finish.{finished_whole}
use comnet.Sender.Examples.{
  three_bytes, sample_world, sample_world-Suits, unset, after_start, at_start-fill_window,
}
use comnet.Receiver.Examples.{
  machine, anywhere, one_datagram, filled, last_ack, listening-fin, step-one_datagram,
}
use comnet.System.{
  System, Reach, here, next, sends, delivers, IsSafe, started, transfer-IsSafe, transfer_complete,
}

abbrev done : System
done = record { sender = after_start; receiver = filled; acks = last_ack ∷ [] }

done-Reach : Reach sample_world machine (started sample_world 0 unset) done
done-Reach = next (next here (sends after_start at_start-fill_window)) (
    delivers one_datagram anywhere filled (last_ack ∷ []) (inl refl) listening-fin
      step-one_datagram)

transfer-IsSafe_example : IsSafe three_bytes done
transfer-IsSafe_example =
    transfer-IsSafe sample_world machine sample_world-Suits 0 unset {z = done} done-Reach

transfer_complete_example : done.receiver.recv_data ≡ three_bytes
transfer_complete_example =
    transfer_complete sample_world machine sample_world-Suits 0 unset {z = done} done-Reach refl

last_ack-finishes :
    Replies.receive sample_world after_start (reply last_ack) ≡ (after_start, finished)
unfolding Replies.receive receive_in ss_receive final_ack Sender.initial
last_ack-finishes = refl

finished_whole_example : done.receiver.recv_data ≡ three_bytes
finished_whole_example =
    finished_whole sample_world machine sample_world-Suits 0 unset {z = done} last_ack after_start
      done-Reach (inl refl) last_ack-finishes
