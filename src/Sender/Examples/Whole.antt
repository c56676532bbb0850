-- ===== src/Sender/Examples/Whole.antt =====
-- Runs of the sender from its start on, and one after a late acknowledgement.
use comnet.Sender.Missing.{sender_main-waits}
use comnet.Sender.Main.{Start, waits, sender_main}
use comnet.Base.{NonZero, zero, suc}
use comnet.Base.{ℕ, ◌≡◌, refl, true, false, [], ◌∷◌, ◌++◌, arith, replicate}
use comnet.Packet.{Packet}
use comnet.Stream.{Stream}
use comnet.Sender.Replies.{nothing}
use comnet.Sender.Mislabels.{receive-mislabels}
use comnet.Sender.Segments.{IsText, bytes_at}
use comnet.Base.{take, ◌<◌}
use comnet.Sender.Replies.{reply, receive}
use comnet.Sender.Bounds.Range.{InRange, transmit-InRange}
use comnet.Sender.Replies.{transmit}
use comnet.Sender.{initial, open_socket}
use comnet.Sender
use comnet.Sender.{Sender, World, going}
use comnet.Sender.Window.{send_chunk}
use comnet.Sender.Unset.Alike.{AlikeEnd, transmit-Alike}
use comnet.Sender.Examples.{sample_world, unset, at_start, early_ack}

transmit-InRange_example :
    InRange (
      transmit sample_world (open_socket true (initial 0 unset)).0 (nothing ∷ reply early_ack ∷ []))
transmit-InRange_example =
    transmit-InRange sample_world true 0 unset (nothing ∷ reply early_ack ∷ []) (omega arith)
      (tt, (omega arith, tt))

ones-NonZero : (n : ℕ) → NonZero (replicate n 1)
ones-NonZero zero = tt
ones-NonZero (suc n) = (omega arith, ones-NonZero n)

-- A file of 300 bytes: two chunks are acknowledged late, as the stream stands after the first.
abbrev long_world : World
long_world = record sample_world { disk = record { readable = true; contents = replicate 300 1 } }

long_world-IsText : IsText long_world.disk
long_world-IsText = record { readable = refl; small = omega arith; no_nul = ones-NonZero 300 }

abbrev taken_back : Sender
taken_back = record at_start {
  message = record { position = 100; failing = false };
  file_position = 100;
}

abbrev late_ack : Packet
late_ack = record early_ack { ack_num = 201 }

receive-mislabels_example :
    (s' : Sender) × (q : Packet) × (send_chunk long_world
        (receive long_world taken_back (reply late_ack)).0
      ≡ going s')
    × (s'.sent ≡ taken_back.sent ++ q ∷ [])
    × (take 100 q.payload ≡ bytes_at long_world.disk 200)
    × (q.seq_num ≡ 101)
    × (q.seq_num < 201)
receive-mislabels_example =
    receive-mislabels long_world taken_back late_ack long_world-IsText (λ n. refl) refl refl
      (unfold Sender.initial in omega arith) refl refl (omega arith) (omega arith) (omega arith)

abbrev empty_disk : World
empty_disk = record sample_world { disk = record { readable = false; contents = [] } }

abbrev at_home : Start
at_home = record { disks = λ name. empty_disk.disk; opens = true; garbage = 7; unset = unset }

sender_main-waits_example :
    (s : Sender) × (sender_main sample_world at_home ([] ∷ [] ∷ [] ∷ []) (replicate 2 nothing)
      ≡ waits s)
    × (s.sent ≡ [])
sender_main-waits_example = sender_main-waits sample_world at_home [] [] [] 2 refl refl

abbrev elsewhere : Stream
elsewhere = record { position = 8; failing = true }

transmit-Alike_example :
    AlikeEnd 7 sample_world
      (transmit sample_world
        (open_socket true (initial 0 unset)).0
        (nothing ∷ reply early_ack ∷ []))
      (transmit sample_world
        (open_socket true (initial 7 elsewhere)).0
        (nothing ∷ reply early_ack ∷ []))
transmit-Alike_example =
    transmit-Alike sample_world 0 7 unset elsewhere (nothing ∷ reply early_ack ∷ [])
