-- ===== src/Sender/Resending.antt =====
-- The retransmission and the timeout keep the stream and `filePosition_` together.
use Prim.Native.Nat.{min}
use comnet.Base.{
  ℕ, ◌+◌, ◌-◌, ◌^◌, ◌≤◌, ◌<◌, ◌≡◌, sym, ap, ◌∙◌, Bool, true, false, List, inl, inr, ◌⊎◌, arith,
  length, u32, ltb, if◌then◌else◌, Bool-cases, if_true, if_false, subst,
}
use comnet.Base.Int.{pos, ltb_ℤ}
use comnet.Stream.{Stream, open_file, seek, chunk, read, seek-working, seek-failing}
use comnet.Sender.Segments.{bytes_at, bytes_at-NonZero, length-bytes_at, segment-IsSegment}
use comnet.Sender.Window.{
  before_acked, resume_point, relaunch, resend, retransmit_missing_segment, process_timeout,
}
use comnet.Sender.{Sender, World, mms_bytes, send_data, bytes_sent, uncleared}
use comnet.Sender.Sync.{IsSynced, Keeps, Suits, AllSegments, send_data_frame, send_data-AllSegments}
use comnet.Sender.Transfer.{read_there}

-- Back at `start`, unless the file has less than one chunk, and then the stream has failed.
landing :
    (size p len start : ℕ) (f : Bool)
    → (start ≤ size) ⊎ (size < 100)
    → size < 2 ^ 31
    → len ≡ min 100 (size - p)
    → f ≡ ltb len 100
    → (f ≡ false → start ≡ u32 start) × ((u32 start ≤ size) ⊎ ((f ≡ true) × (size < 100)))
landing size p len start f back small e flag = (
  λ more. ground arith,
  elim back [ inl b ↦ inl (omega arith) | inr tiny ↦ inr (ground arith, tiny) ],
)

module _ (w : World) (suits : Suits w) where
  abbrev file : List ℕ
  file = w.disk.contents

  open_file-working : (open_file w.disk).failing ≡ false
  unfolding open_file
  open_file-working = rw suits.text.readable

  resume_point_lem :
      (s : Sender)
      → IsSynced file s
      → ((resume_point w s).0.failing ≡ false) × ((resume_point w s).1 ≡ s.file_position)
  unfolding resume_point
  resume_point_lem s v = elim (Bool-cases s.message.failing) [
    | inl bad ↦ (
      ap (λ (r : Stream × ℕ). r.0.failing) (if_true _ _ _ bad)
          ∙ (seek-working s.file_position _ open_file-working).1,
      ap (λ (r : Stream × ℕ). r.1) (if_true _ _ _ bad),
    )
    | inr ok ↦ (
      ap (λ (r : Stream × ℕ). r.0.failing) (if_false _ _ _ ok) ∙ ok,
      ap (λ (r : Stream × ℕ). r.1) (if_false _ _ _ ok) ∙ v.aligned ok,
    )
  ]

  before_acked_lem : (s : Sender) → IsSynced file s → before_acked s + 1 ≡ s.acked_position
  before_acked_lem s v = omega (arith, v.counted, v.inside, suits.text.small)

  -- `s` is the state once the missing chunk is read; `start` is where the sender comes back to.
  module _ (s : Sender) (bytes : List ℕ) (start : ℕ) (bound : s.file_position ≤ length file)
      (len : length bytes ≡ min 100 (length file - s.file_position))
      (flag : s.message.failing ≡ ltb (length bytes) 100) (counted : 1 ≤ s.acked_position)
      (inside : s.acked_position ≤ length file + 1)
      (back : (start ≤ length file) ⊎ (length file < 100))
      (sent : AllSegments file (send_data w s (uncleared w s bytes) (length bytes)).sent) where
    abbrev told : ℕ
    told = if s.message.failing then length bytes else mms_bytes

    told_lem : told ≡ length bytes
    told_lem = elim (Bool-cases s.message.failing) [
      | inl last ↦ if_true _ _ _ last
      | inr more ↦ if_false _ _ _ more ∙ ground (arith, len, sym flag ∙ more)
    ]

    abbrev sender : Sender
    sender = send_data w s (uncleared w s bytes) told

    frame :
        (sender.message ≡ s.message)
        × (sender.file_position ≡ s.file_position)
        × (sender.acked_position ≡ s.acked_position)
    frame = send_data_frame w s (uncleared w s bytes) told

    sent_told : AllSegments file sender.sent
    sent_told =
        subst (λ n. AllSegments file (send_data w s (uncleared w s bytes) n).sent) (sym told_lem)
          sent

    seek_flag : (seek start sender.message).failing ≡ s.message.failing
    seek_flag = seek-failing start sender.message ∙ ap (λ (m : Stream). m.failing) frame.0

    land_at :
        (s.message.failing ≡ false → start ≡ u32 start)
        × ((u32 start ≤ length file) ⊎ ((s.message.failing ≡ true) × (length file < 100)))
    land_at =
        landing (length file) s.file_position (length bytes) start s.message.failing back
          suits.text.small len flag

    resumed :
        IsSynced file
          (record sender { message = seek start sender.message; file_position = u32 start })
    resumed = record {
      aligned = λ e.
          (seek-working start sender.message (sym (seek-failing start sender.message) ∙ e)).0
          ∙ (land_at.0 (sym seek_flag ∙ e));
      bounded = elim land_at.1 [ inl b ↦ inl b | inr tiny ↦ inr (seek_flag ∙ tiny.0, tiny.1) ];
      counted = rw frame.2 counted;
      inside = rw frame.2 inside;
      segments = sent_told;
    }

    relaunch-Keeps : Keeps file (relaunch w s bytes start)
    unfolding relaunch
    relaunch-Keeps = elim (Bool-cases (ltb_ℤ (bytes_sent w s (uncleared w s bytes)) (pos 0))) [
      | inl bad ↦ subst (Keeps file) (sym (if_true _ _ _ bad)) sent_told
      | inr good ↦ subst (Keeps file) (sym (if_false _ _ _ good)) resumed
    ]

  -- Under the same conditions the retransmission sends a segment of the file, and if it goes on,
  -- it leaves the stream where `filePosition_` says.
  pub retransmit-Keeps :
      (s : Sender) → IsSynced file s → Keeps file (retransmit_missing_segment w s)
  unfolding retransmit_missing_segment resend
  retransmit-Keeps s v = rw there (
      relaunch-Keeps _ (bytes_at w.disk (before_acked s)) (resume_point w s).1 bound
        (length-bytes_at w.disk _) flag v.counted v.inside back
        (send_data-AllSegments w file suits.text.small suits.two_behind _ _ v.segments
          (bytes_at-NonZero w.disk suits.text _) bound (length-bytes_at w.disk _) flag
          (λ rest. segment-IsSegment w.disk suits.text _ rest bound flag) _))
    where
      works :
          ((seek (before_acked s) (resume_point w s).0).position ≡ before_acked s)
          × ((seek (before_acked s) (resume_point w s).0).failing ≡ false)
      works = seek-working (before_acked s) _ (resume_point_lem s v).0

      bound : before_acked s ≤ length file
      bound = omega (arith, before_acked_lem s v, v.inside)

      there :
          chunk w.disk mms_bytes (seek (before_acked s) (resume_point w s).0)
          ≡ bytes_at w.disk (before_acked s)
      there = (read_there w suits _ (before_acked s) works.1 works.0).0

      flag :
          (read w.disk mms_bytes (seek (before_acked s) (resume_point w s).0)).failing
          ≡ ltb (length (bytes_at w.disk (before_acked s))) 100
      flag = (read_there w suits _ (before_acked s) works.1 works.0).1

      back : ((resume_point w s).1 ≤ length file) ⊎ (length file < 100)
      back = rw (resume_point_lem s v).1 (elim v.bounded [ inl b ↦ inl b | inr tiny ↦ inr tiny.1 ])

  reopened :
      (s : Sender) → (if s.message.failing then open_file w.disk else s.message).failing ≡ false
  reopened s = elim (Bool-cases s.message.failing) [
    | inl bad ↦ ap (λ (m : Stream). m.failing) (if_true _ _ _ bad) ∙ open_file-working
    | inr ok ↦ ap (λ (m : Stream). m.failing) (if_false _ _ _ ok) ∙ ok
  ]

  pub process_timeout-works : (s : Sender) → (process_timeout w s).message.failing ≡ false
  unfolding process_timeout
  process_timeout-works s = (seek-working (before_acked s) _ (reopened s)).1

  -- A timeout brings them together at the first byte that is not acknowledged.
  pub process_timeout-IsSynced :
      (s : Sender) → IsSynced file s → IsSynced file (process_timeout w s)
  unfolding process_timeout
  process_timeout-IsSynced s v = record {
    aligned = λ e. (seek-working (before_acked s) _ (reopened s)).0;
    bounded = inl (omega (arith, before_acked_lem s v, v.inside));
    counted = v.counted;
    inside = v.inside;
    segments = v.segments;
  }
