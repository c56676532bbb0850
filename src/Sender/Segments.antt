-- ===== src/Sender/Segments.antt =====
-- The datagrams that `sendData` is given: segments of the file.
use Prim.Native.Nat.{min}
use native.Mathlib.Nat.{add-zero}
use comnet.Base.{
  ℕ, suc, ◌+◌, ◌-◌, ◌^◌, ◌≤◌, ◌<◌, ◌≡◌, refl, sym, true, false, List, ◌++◌, arith, length, take,
  drop, replicate, length-take, length-drop, NonZero, u16, u32, resize, c_string, ltb, ltb→lt,
  length-resize,
}
use comnet.Base.Int.{pos, negsuc, ◌-ℤ◌}
use comnet.Base.Text.{
  NonZero-take, NonZero-drop, length-c_string-append, take-length-take, take-resize-c_string,
}
use comnet.Segment.{IsChunk, IsSegment}
use comnet.Stream.{Disk}
use comnet.Sender.{Sender, World, mms_bytes, segment, bytes_sent, cleared}

-- What the transfer needs of the world: the file can be read, it is not too long for the counters,
-- and no NUL byte is in it.
pub record IsText (d : Disk) : Type 0 where
  pub readable : d.readable ≡ true
  pub small : length d.contents < 2 ^ 31
  pub no_nul : NonZero d.contents

-- The bytes that a read of one chunk finds at `p`.
abbrev pub bytes_at : Disk → ℕ → List ℕ
bytes_at d p = take mms_bytes (drop p d.contents)

pub length-bytes_at : (d : Disk) (p : ℕ) → length (bytes_at d p) ≡ min 100 (length d.contents - p)
length-bytes_at d p = omega (arith, length-take 100 (drop p d.contents), length-drop p d.contents)

module _ (d : Disk) (t : IsText d) where
  pub length-bytes_at-le : (p : ℕ) → length (bytes_at d p) ≤ 100
  length-bytes_at-le p = omega (arith, length-take 100 (drop p d.contents))

  pub bytes_at-NonZero : (p : ℕ) → NonZero (bytes_at d p)
  bytes_at-NonZero p = NonZero-take mms_bytes _ (NonZero-drop p _ t.no_nul)

  bytes_at-IsChunk :
      (p : ℕ)
      → p ≤ length d.contents
      → IsChunk d.contents (p + 1) (bytes_at d p) (ltb (length (bytes_at d p)) 100)
  bytes_at-IsChunk p h = record {
    counted = omega arith;
    inside = omega (arith, length-take 100 (drop p d.contents), length-drop p d.contents);
    same = rw start (sym (take-length-take 100 (drop p d.contents)));
    ends = λ e.
        omega (arith, ltb→lt _ _ e, length-take 100 (drop p d.contents), length-drop p d.contents);
  }
    where
      start : p + 1 - 1 ≡ p
      start = omega arith

  -- A datagram made of the chunk at `filePosition_` is a segment, whatever follows in memory.
  pub segment-IsSegment :
      (s : Sender) (rest : List ℕ)
      → s.file_position ≤ length d.contents
      → s.message.failing ≡ ltb (length (bytes_at d s.file_position)) 100
      → IsSegment d.contents
          (segment s (bytes_at d s.file_position ++ rest) (length (bytes_at d s.file_position)))
  unfolding segment
  segment-IsSegment s rest h e = record {
    chunk = rw (len, payload, number, e) (bytes_at-IsChunk s.file_position h);
    short = rw len (
        omega (
          arith,
          length-bytes_at-le s.file_position,
          length-resize 100 (c_string (bytes_at d s.file_position ++ rest)),
        ));
    no_nul = rw (len, payload) (bytes_at-NonZero s.file_position);
  }
    where
      bytes : List ℕ
      bytes = bytes_at d s.file_position

      len : u16 (length bytes) ≡ length bytes
      len = omega (arith, length-bytes_at-le s.file_position)

      number : u32 (s.file_position + 1) ≡ s.file_position + 1
      number = omega (arith, t.small)

      payload : take (length bytes) (resize 100 (c_string (bytes ++ rest))) ≡ bytes
      payload =
          take-resize-c_string 100 bytes rest (length-bytes_at-le s.file_position)
            (bytes_at-NonZero s.file_position)

module _ (w : World) (s : Sender) (bytes : List ℕ) (z : NonZero bytes) where
  behind : ℕ → List ℕ
  behind n = replicate n 0 ++ drop mms_bytes (w.stack s.asked)

  strlen_cleared :
      length (c_string (cleared w s bytes))
      ≡ length bytes + length (c_string (behind (mms_bytes - length bytes)))
  unfolding behind
  strlen_cleared = length-c_string-append bytes _ z

  -- On a full chunk `strlen` counts the two bytes that lie behind the array, if there are two.
  pub bytes_sent-full :
      w.works s.asked ≡ true
      → length (c_string (drop mms_bytes (w.stack s.asked))) ≡ 2
      → length bytes ≡ 100
      → bytes_sent w s (cleared w s bytes) ≡ pos 100
  unfolding bytes_sent ◌-ℤ◌
  bytes_sent-full ok two full = rw (ok, strlen_cleared, full) (unfold behind in rw two)

  -- The last chunk has a NUL behind it.
  pub bytes_sent-short :
      w.works s.asked ≡ true
      → length bytes < 100
      → bytes_sent w s (cleared w s bytes) ≡ pos (length bytes) -ℤ pos 2
  unfolding bytes_sent
  bytes_sent-short ok short =
      rw (ok, strlen_cleared, missing) (unfold behind c_string in rw add-zero)
    where
      missing : mms_bytes - length bytes ≡ suc (99 - length bytes)
      missing = omega arith

  -- Of a full chunk without NUL bytes, where `sendTo` works, `sendData` returns the 100 bytes that
  -- were sent, and as many as lie behind the array up to the next NUL, less two: what is added to
  -- `filePosition_` depends on the stack.
  pub bytes_sent_lem :
      w.works s.asked ≡ true
      → length bytes ≡ 100
      → bytes_sent w s (cleared w s bytes)
        ≡ pos (100 + length (c_string (drop mms_bytes (w.stack s.asked)))) -ℤ pos 2
  unfolding bytes_sent
  bytes_sent_lem ok full = rw (ok, strlen_cleared, full) (unfold behind in refl)

pub bytes_sent-refused :
    (w : World) (s : Sender) (memory : List ℕ)
    → w.works s.asked ≡ false
    → bytes_sent w s memory ≡ negsuc 0
unfolding bytes_sent
bytes_sent-refused w s memory bad = rw bad
