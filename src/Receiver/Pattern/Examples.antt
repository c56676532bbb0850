-- ===== src/Receiver/Pattern/Examples.antt =====
-- Loss patterns of a line each.
use comnet.Base.{◌+◌, ◌≡◌, refl, [], ◌∷◌, arith, if◌then◌else◌, true}
use comnet.Base.Int.{pos, ltb_ℤ}
use comnet.Base.Join.{join, join_rest}
use comnet.Base.Decimal.{to_string, show_fuel}
use comnet.Receiver.{skipped, got, Receiver, initial, received, receive_packet}
use comnet.Receiver.Examples.{machine, anywhere, one_datagram}
use comnet.Receiver.Specific.{IsOnTrack, elem, receive_packet-IsOnTrack}
use comnet.Receiver.Pattern.{loaded, refused, open_loss_pattern}
use comnet.Receiver.Pattern.Written.{
  written_file, open_loss_pattern_specific, open_loss_pattern_periodic,
}

open_loss_pattern_specific_example :
    open_loss_pattern (written_file (2 ∷ 3 ∷ 7 ∷ []) []) initial
    ≡ loaded (record initial { specific_packets = 3 ∷ 7 ∷ []; specific = true })
open_loss_pattern_specific_example =
    open_loss_pattern_specific 3 (7 ∷ []) [] initial
      (omega arith, omega arith, (omega arith, omega arith, tt)) (unfold initial in refl)
      (unfold join join_rest to_string show_fuel in omega arith)

open_loss_pattern_periodic_example : open_loss_pattern (written_file (1 ∷ 4 ∷ []) []) initial ≡ (
    if ltb_ℤ (pos 4) (pos 2)
    then refused (record initial { loss_period = pos 4 })
    else loaded (record initial { loss_period = pos 4; periodic = true }))
open_loss_pattern_periodic_example =
    open_loss_pattern_periodic 4 [] initial (omega arith)
      (unfold join join_rest to_string show_fuel in omega arith)

-- The receiver that is to lose the third and the seventh datagram, at its start.
abbrev losing : Receiver
losing = record initial { specific_packets = 3 ∷ 7 ∷ []; specific = true }

losing-IsOnTrack : IsOnTrack losing
unfolding initial
losing-IsOnTrack = record {
  past = [];
  ahead = 3 ∷ 7 ∷ [];
  split = refl;
  at = refl;
  over = tt;
  rising = (omega arith, (omega arith, tt));
  on = refl;
  only = refl;
}

receive_packet-IsOnTrack_example :
    IsOnTrack (receive_packet machine losing (received one_datagram anywhere)).0
    × ((receive_packet machine losing (received one_datagram anywhere)).1
        ≡ (if elem (losing.rsn + 1) losing.specific_packets then skipped else got one_datagram))
receive_packet-IsOnTrack_example =
    receive_packet-IsOnTrack machine losing one_datagram anywhere losing-IsOnTrack refl
