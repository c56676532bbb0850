-- ===== src/Receiver/Main/Examples.antt =====
-- The program at a file of three bytes in one datagram.
use comnet.Base.{ℕ, ◌^◌, ◌<◌, refl, true, List, [], ◌∷◌, arith, length}
use comnet.Stream.{Disk}
use comnet.Base.{◌≡◌, read_array, c_string}
use comnet.Base.Decimal.{atoi, read_signed, skip_space, read_digits}
use comnet.Receiver.{
  received, initial, open_socket, receive, receive_loop, follow, step, receive_packet, filter_loss,
  periodic_loss, specific_loss, note_source, act, respond, process_packet, take_packet, save_data,
  check_early_data, check_early_loop, find, send_ack,
}
use comnet.Receiver.Pattern.{
  load_line, load_tokens, load_mode, first_line, get_line, tokens_from, to_number,
}
use comnet.Base.Int.{to_int, to_int_signed, to_long}
use comnet.Receiver.Main.{run, listen, print, prints, waits}
use comnet.Receiver.Pattern.{open_loss_pattern}
use comnet.Receiver.Examples.{machine, anywhere, one_datagram, last_ack, listening}
use comnet.Receiver.Main.{receiver_main}
use comnet.Receiver.Main.Prints.{Prints, receiver_main-Prints}
use comnet.Segment.{IsSegment}

abbrev file : List ℕ
file = 7 ∷ 8 ∷ 9 ∷ []

abbrev small : length file < 2 ^ 31
small = omega arith

one_datagram-IsSegment : IsSegment file one_datagram
one_datagram-IsSegment = record {
  chunk = record { counted = omega arith; inside = omega arith; same = refl; ends = λ e. refl };
  short = omega arith;
  no_nul = (omega arith, (omega arith, (omega arith, tt)));
}

-- A loss file with mode 0.
abbrev pub disks : List ℕ → Disk
disks name = record { readable = true; contents = b'0' ∷ b'\n' ∷ [] }

receiver_main-Prints_example :
    Prints file
      (open_loss_pattern (disks []) initial)
      true
      (received one_datagram anywhere ∷ [])
      (receiver_main machine disks true ([] ∷ [] ∷ []) (received one_datagram anywhere ∷ []))
receiver_main-Prints_example =
    receiver_main-Prints file small machine disks true [] [] (received one_datagram anywhere ∷ [])
      (one_datagram-IsSegment, tt)

-- The file is through with that datagram.
pub receiver_main-one :
    receiver_main machine disks true ([] ∷ [] ∷ []) (received one_datagram anywhere ∷ [])
    ≡ prints (7 ∷ 8 ∷ 9 ∷ b'\n' ∷ []) (last_ack ∷ [])
unfolding receiver_main run listen print open_loss_pattern load_line load_tokens load_mode
    first_line get_line tokens_from to_number to_int_signed to_long to_int atoi initial open_socket
    receive receive_loop follow step receive_packet filter_loss periodic_loss specific_loss
    note_source act respond process_packet take_packet save_data check_early_data check_early_loop
    find send_ack read_array c_string read_signed skip_space read_digits
receiver_main-one = refl

-- Before it comes.
pub receiver_main-none : receiver_main machine disks true ([] ∷ [] ∷ []) [] ≡ waits listening []
unfolding receiver_main run listen print open_loss_pattern load_line load_tokens load_mode
    first_line get_line tokens_from to_number to_int_signed to_long to_int atoi initial open_socket
    receive receive_loop c_string read_signed skip_space read_digits
receiver_main-none = refl
