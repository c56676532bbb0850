-- ===== src/Sender/Sync.antt =====
-- The stream and `filePosition_` stay together, so that every datagram is labelled rightly.
mod Ways
pub use comnet.Sender.Sync.Ways.{
  clash, AllSegments, Suits, IsSynced, Keeps, send_data_frame, launch-going, launch-failing,
  launch-full,
}
use comnet.Sender.Sync.Ways.{AllSegments-append, land_short, land_refused, land_full}
use Prim.Native.Nat.{min}
use comnet.Base.{
  NonZero, ℕ, ◌+◌, ◌-◌, ◌^◌, ◌≤◌, ◌<◌, ◌≡◌, sym, ap, ◌∙◌, true, false, List, ◌++◌, inl, inr, ◌⊎◌,
  arith, length, drop, c_string, ltb, ltb→lt, Bool-cases, subst,
}
use comnet.Base.Int.{ℤ, pos, ltb_ℤ}
use comnet.Segment.{IsSegment}
use comnet.Stream.{Stream}
use comnet.Sender.Segments.{bytes_sent-full, bytes_sent-short, bytes_sent-refused}
use comnet.Sender.Window.{launch}
use comnet.Sender.{
  Sender, World, failing, mms_bytes, add_int, segment, send_data, bytes_sent, cleared,
}

-- A chunk is sent from where the stream stands. `s` is the state once the chunk is read.
module _ (w : World) (file : List ℕ) (small : length file < 2 ^ 31)
    (two : (n : ℕ) → length (c_string (drop mms_bytes (w.stack n))) ≡ 2) (s : Sender)
    (bytes : List ℕ) (h : AllSegments file s.sent) (z : NonZero bytes)
    (bound : s.file_position ≤ length file)
    (len : length bytes ≡ min 100 (length file - s.file_position))
    (flag : s.message.failing ≡ ltb (length bytes) 100)
    (seg : (rest : List ℕ) → IsSegment file (segment s (bytes ++ rest) (length bytes))) where
  -- The datagram joins those that were sent, if `sendTo` works.
  pub send_data-AllSegments :
      (rest : List ℕ) → AllSegments file (send_data w s (bytes ++ rest) (length bytes)).sent
  unfolding send_data
  send_data-AllSegments rest = elim (Bool-cases (w.works s.asked)) [
    | inl ok ↦ rw ok (AllSegments-append file s.sent _ h (seg rest, tt))
    | inr bad ↦ rw bad h
  ]

  module _ (counted : 1 ≤ s.acked_position) (inside : s.acked_position ≤ length file + 1)
      (here : s.message.position ≡ s.file_position + length bytes) where
    -- The position after the last chunk.
    landed :
        length bytes < 100
        → (add_int s.file_position (bytes_sent w s (cleared w s bytes)) ≤ length file)
          ⊎ (length file < 100)
    landed short = elim (Bool-cases (w.works s.asked)) [
      | inl ok ↦
          rw (bytes_sent-short w s bytes z ok short)
            (land_short (length file) s.file_position (length bytes) bound small len short)
      | inr bad ↦
          rw (bytes_sent-refused w s _ bad)
            (land_refused (length file) s.file_position (length bytes) bound small len short)
    ]

    abbrev memory : List ℕ
    memory = cleared w s bytes

    abbrev moved : ℤ
    moved = bytes_sent w s memory

    launch_last : length bytes < 100 → s.message.failing ≡ true → Keeps file (launch w s bytes)
    launch_last short last = subst (Keeps file) (sym (launch-going w s bytes last)) (record {
      aligned = λ e. absurd (clash (ap (λ m. m.failing) (frame.0) ∙ last) e);
      bounded = elim (landed short) [
        | inl b ↦ inl (rw frame.1 b)
        | inr tiny ↦ inr (rw (ap (λ (m : Stream). m.failing) frame.0) last, tiny)
      ];
      counted = rw frame.2 counted;
      inside = rw frame.2 inside;
      segments = send_data-AllSegments _;
    })
      where
        frame :
            ((send_data w s memory (length bytes)).message ≡ s.message)
            × ((send_data w s memory (length bytes)).file_position ≡ s.file_position)
            × ((send_data w s memory (length bytes)).acked_position ≡ s.acked_position)
        frame = send_data_frame w s memory (length bytes)

    full-AllSegments : length bytes ≡ 100 → AllSegments file (send_data w s memory mms_bytes).sent
    full-AllSegments full =
        subst (λ n. AllSegments file (send_data w s memory n).sent) full (send_data-AllSegments _)

    launch_refused :
        s.message.failing ≡ false
        → length bytes ≡ 100
        → ltb_ℤ moved (pos 0) ≡ true
        → Keeps file (launch w s bytes)
    launch_refused more full bad =
        subst (Keeps file) (sym (launch-failing w s bytes more bad)) (full-AllSegments full)

    launch_full :
        s.message.failing ≡ false
        → length bytes ≡ 100
        → ltb_ℤ moved (pos 0) ≡ false
        → Keeps file (launch w s bytes)
    launch_full more full good =
        subst (Keeps file) (sym (launch-full w s bytes more good)) (record {
          aligned = λ e.
              ap (λ (m : Stream). m.position) frame.0
              ∙ here
              ∙ sym fall.0
              ∙ ap (λ t. add_int t (bytes_sent w s memory)) (sym frame.1);
          bounded = inl (rw (frame.1, fall.0) fall.1);
          counted = rw frame.2 counted;
          inside = rw frame.2 inside;
          segments = full-AllSegments full;
        })
      where
        frame :
            ((send_data w s memory mms_bytes).message ≡ s.message)
            × ((send_data w s memory mms_bytes).file_position ≡ s.file_position)
            × ((send_data w s memory mms_bytes).acked_position ≡ s.acked_position)
        frame = send_data_frame w s memory mms_bytes

        worked : w.works s.asked ≡ true
        worked = elim (Bool-cases (w.works s.asked)) [
          | inl ok ↦ ok
          | inr bad ↦
              absurd (clash (ap (λ n. ltb_ℤ n (pos 0)) (bytes_sent-refused w s memory bad)) good)
        ]

        fall :
            (add_int s.file_position (bytes_sent w s memory) ≡ s.file_position + length bytes)
            × (s.file_position + length bytes ≤ length file)
        fall =
            rw (bytes_sent-full w s bytes z worked (two s.asked) full)
              (land_full (length file) s.file_position (length bytes) bound small len full)

    -- However the datagram fares, nothing but segments of the file has been sent, and if the loop
    -- goes on then the stream and `filePosition_` agree.
    pub launch-Keeps : Keeps file (launch w s bytes)
    launch-Keeps = elim (Bool-cases s.message.failing) [
      | inl last ↦ launch_last (ltb→lt _ _ (sym flag ∙ last)) last
      | inr more ↦ elim (Bool-cases (ltb_ℤ moved (pos 0))) [
        | inl bad ↦ launch_refused more (whole more) bad
        | inr good ↦ launch_full more (whole more) good
      ]
    ]
      where
        whole : s.message.failing ≡ false → length bytes ≡ 100
        whole more = ground (arith, len, sym flag ∙ more)
