-- ===== src/Sender/Sync/Ways.antt =====
-- What the stream and `filePosition_` have to agree on, where `filePosition_` comes to rest after a
-- datagram, and the three ways that a turn of the sending loop takes.
use Prim.Native.Nat.{min}
use comnet.Base.{
  ℕ, ◌+◌, ◌-◌, ◌^◌, ◌≤◌, ◌<◌, ◌≡◌, ◌∙◌, Bool, true, false, List, [], ◌∷◌, ◌++◌, ◌⊎◌, arith, length,
  drop, c_string, if_true, if_false,
}
use comnet.Base.Int.{pos, negsuc, ◌-ℤ◌, ltb_ℤ}
use comnet.Packet.{Packet}
use comnet.Segment.{IsSegment}
use comnet.Sender.Segments.{IsText}
use comnet.Sender.Window.{advance, launch}
use comnet.Sender.{
  Sender, World, Progress, going, failing, mms_bytes, add_int, send_data, bytes_sent, cleared,
}

pub clash : {b : Bool} → b ≡ true → b ≡ false → ⊥
clash e e' = cc

abbrev pub AllSegments : List ℕ → List Packet → Type 0
AllSegments file [] = Unit {0}
AllSegments file (p ∷ ps) = IsSegment file p × AllSegments file ps

pub AllSegments-append :
    (file : List ℕ) (ps qs : List Packet)
    → AllSegments file ps
    → AllSegments file qs
    → AllSegments file (ps ++ qs)
AllSegments-append file [] qs h k = k
AllSegments-append file (p ∷ ps) qs h k = (h.0, AllSegments-append file ps qs h.1 k)

-- A world that suits the sender: the file is text, and exactly two bytes that are not NUL lie
-- behind `packet_data` in `transmit`, as `strlen(data)-2` takes for granted.
pub record Suits (w : World) : Type 0 where
  pub text : IsText w.disk
  pub two_behind : (n : ℕ) → length (c_string (drop mms_bytes (w.stack n))) ≡ 2

pub record IsSynced (file : List ℕ) (s : Sender) : Type 0 where
  pub aligned : s.message.failing ≡ false → s.message.position ≡ s.file_position
  pub bounded : (s.file_position ≤ length file) ⊎ ((s.message.failing ≡ true) × (length file < 100))
  pub counted : 1 ≤ s.acked_position
  pub inside : s.acked_position ≤ length file + 1
  pub segments : AllSegments file s.sent

-- After a part of `transmit`: the invariant, or at least no wrong datagram.
abbrev pub Keeps : List ℕ → Progress → Type 0
Keeps file (going s) = IsSynced file s
Keeps file (failing s) = AllSegments file s.sent

-- Where `filePosition_` comes to rest: after the last chunk, after one that `sendTo` refused, and
-- after a full chunk.
pub land_short :
    (size p len : ℕ)
    → p ≤ size
    → size < 2 ^ 31
    → len ≡ min 100 (size - p)
    → len < 100
    → (add_int p (pos len -ℤ pos 2) ≤ size) ⊎ (size < 100)
unfolding ◌-ℤ◌
land_short size p len bound small e short = ground arith

pub land_refused :
    (size p len : ℕ)
    → p ≤ size
    → size < 2 ^ 31
    → len ≡ min 100 (size - p)
    → len < 100
    → (add_int p (negsuc 0) ≤ size) ⊎ (size < 100)
land_refused size p len bound small e short = ground arith

pub land_full :
    (size p len : ℕ)
    → p ≤ size
    → size < 2 ^ 31
    → len ≡ min 100 (size - p)
    → len ≡ 100
    → (add_int p (pos 100) ≡ p + len) × (p + len ≤ size)
land_full size p len bound small e full = ground arith

pub send_data_frame :
    (w : World) (s : Sender) (memory : List ℕ) (len : ℕ)
    → ((send_data w s memory len).message ≡ s.message)
      × ((send_data w s memory len).file_position ≡ s.file_position)
      × ((send_data w s memory len).acked_position ≡ s.acked_position)
unfolding send_data
send_data_frame w s memory len = ground arith

-- The three ways of `launch`.
module _ (w : World) (s : Sender) (bytes : List ℕ) where
  pub launch-going :
      s.message.failing ≡ true
      → launch w s bytes
        ≡ going (
            advance
              (send_data w s (cleared w s bytes) (length bytes))
              (bytes_sent w s (cleared w s bytes)))
  unfolding launch
  launch-going e = if_true _ _ _ e

  pub launch-failing :
      s.message.failing ≡ false
      → ltb_ℤ (bytes_sent w s (cleared w s bytes)) (pos 0) ≡ true
      → launch w s bytes ≡ failing (send_data w s (cleared w s bytes) mms_bytes)
  unfolding launch
  launch-failing e f = if_false _ _ _ e ∙ if_true _ _ _ f

  pub launch-full :
      s.message.failing ≡ false
      → ltb_ℤ (bytes_sent w s (cleared w s bytes)) (pos 0) ≡ false
      → launch w s bytes
        ≡ going (
            advance
              (send_data w s (cleared w s bytes) mms_bytes)
              (bytes_sent w s (cleared w s bytes)))
  unfolding launch
  launch-full e f = if_false _ _ _ e ∙ if_false _ _ _ f
