-- ===== src/Sender/Transfer.antt =====
-- The sending loop keeps the stream and `filePosition_` together.
use comnet.Base.{
  ℕ, zero, suc, ◌+◌, ◌≤◌, ◌≡◌, ap, ap₂, ◌∙◌, true, false, List, inl, inr, arith, length, ltb,
  Bool-cases,
}
use comnet.Stream.{Stream, chunk, read, read_lem, chunk-working}
use comnet.Sender.Segments.{bytes_at, bytes_at-NonZero, length-bytes_at, segment-IsSegment}
use comnet.Sender.Window.{◌>>=◌, send_chunk, may_send, fill_loop, fill_window}
use comnet.Sender.{Sender, World, Progress, going, failing, mms_bytes}
use comnet.Sender.Sync.{IsSynced, Keeps, Suits, clash, launch-Keeps}

module _ (w : World) (suits : Suits w) where
  abbrev file : List ℕ
  file = w.disk.contents

  -- A chunk that is read where a working stream stands within the file is launched.
  pub read_there :
      (m : Stream) (p : ℕ)
      → m.failing ≡ false
      → m.position ≡ p
      → (chunk w.disk mms_bytes m ≡ bytes_at w.disk p)
        × ((read w.disk mms_bytes m).failing ≡ ltb (length (bytes_at w.disk p)) 100)
        × ((read w.disk mms_bytes m).position ≡ p + length (bytes_at w.disk p))
  read_there m p ok at_p = (
    there,
    (read_lem w.disk mms_bytes m).0 ∙ ap (λ (b : List ℕ). ltb (length b) 100) there,
    (read_lem w.disk mms_bytes m).1 ∙ ap₂ (λ (q : ℕ) (b : List ℕ). q + length b) at_p there,
  )
    where
      there : chunk w.disk mms_bytes m ≡ bytes_at w.disk p
      there = chunk-working w.disk mms_bytes m ok ∙ ap (λ q. bytes_at w.disk q) at_p

  pub bound_of :
      (s : Sender) → IsSynced file s → s.message.failing ≡ false → s.file_position ≤ length file
  bound_of s v ok = elim v.bounded [ inl b ↦ b | inr tiny ↦ absurd (clash tiny.0 ok) ]

  pub send_chunk-Keeps :
      (s : Sender) → IsSynced file s → s.message.failing ≡ false → Keeps file (send_chunk w s)
  unfolding send_chunk
  send_chunk-Keeps s v ok =
      let (there, flag, here) = read_there s.message s.file_position ok (v.aligned ok) in
      let bound = bound_of s v ok in
      rw there (
        launch-Keeps w file suits.text.small suits.two_behind _ (bytes_at w.disk s.file_position)
          v.segments (bytes_at-NonZero w.disk suits.text _) bound (length-bytes_at w.disk _) flag
          (λ rest. segment-IsSegment w.disk suits.text _ rest bound flag) v.counted v.inside here)

  pub may_send-works : (s : Sender) → may_send s ≡ true → s.message.failing ≡ false
  unfolding may_send
  may_send-works s e = ground arith

  fill_loop-Keeps : (fuel : ℕ) (s : Sender) → IsSynced file s → Keeps file (fill_loop fuel w s)
  unfolding fill_loop
  fill_loop-Keeps zero s v = v
  fill_loop-Keeps (suc fuel) s v = elim (Bool-cases (may_send s)) [
    | inl more ↦
        rw (more, fill_loop)
          (andthen (send_chunk w s) _ (send_chunk-Keeps s v (may_send-works s more))
            (λ s' v'. fill_loop-Keeps fuel s' v'))
    | inr full ↦ rw (full, fill_loop) v
  ]
    where
      andthen :
          (p : Progress) (next : Sender → Progress)
          → Keeps file p
          → ((s' : Sender) → IsSynced file s' → Keeps file (next s'))
          → Keeps file (p >>= next)
      andthen (going s') next k h = h s' k
      andthen (failing s') next k h = k

  -- For a file without NUL bytes below 2 ^ 31 bytes and a stack that holds exactly two bytes behind
  -- `packet_data`: while it fills the window, a sender whose stream stands where `filePosition_`
  -- says sends segments of the file only, and if it goes on, its stream stands there again.
  pub fill_window-Keeps : (s : Sender) → IsSynced file s → Keeps file (fill_window w s)
  unfolding fill_window
  fill_window-Keeps s v = fill_loop-Keeps _ s v
