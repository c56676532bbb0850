-- ===== src/Receiver/Delivery/Prefix.antt =====
-- A receiver that holds a prefix of one file: what saving, keeping early segments and taking them up
-- do to it.
use comnet.Base.{
  ℕ, zero, suc, ◌+◌, ◌-◌, ◌^◌, ◌≤◌, ◌<◌, ◌≡◌, Bool, true, ◌||◌, List, [], ◌∷◌, ◌++◌, some, inl, inr,
  arith, Bool-cases, ◌==◌, ap₂, length, take, drop, length-take, take-add, u32, resize-c_string,
  read_array-eq-take, Option-cases,
}
use comnet.Packet.{Packet}
use comnet.Segment.{IsChunk, IsSegment}
use comnet.Receiver.{
  Receiver, Early, Machine, Arrival, received, failed, raised, find, erase, assign, process_packet,
  take_packet, store_early_data, take_early, check_early_loop,
}

module _ (file : List ℕ) where
  abbrev pub Buffered : List (ℕ × Early) → Type 0
  Buffered [] = Unit {0}
  Buffered ((k, e) ∷ m) = IsChunk file k e.bytes e.last × Buffered m

  -- The receiver holds the first `acked_position` bytes of the file, and only early chunks of it.
  pub record IsPrefix (r : Receiver) : Type 0 where
    pub fits : r.acked_position ≤ length file
    pub held : r.recv_data ≡ take r.acked_position file
    pub early : Buffered r.buffer
    pub ended : r.fin ≡ true → r.acked_position ≡ length file

  abbrev pub Carries : Arrival → Type 0
  Carries (received p from) = IsSegment file p
  Carries (failed from) = Unit {0}
  Carries raised = Unit {0}

pub find-IsChunk :
    (file : List ℕ) (k : ℕ) (m : List (ℕ × Early)) (e : Early)
    → Buffered file m
    → find k m ≡ some e
    → IsChunk file k e.bytes e.last
unfolding find
find-IsChunk file k [] e b h = cc
find-IsChunk file k ((j, d) ∷ m) e b h = elim (Bool-cases (j == k)) [
  | inl hit ↦
      let same_key : j ≡ k = ground arith in
      let same_value : d ≡ e = ground arith in rw (← same_key, ← same_value) b.0
  | inr miss ↦ find-IsChunk file k m e b.1 (ground arith)
]

pub erase-Buffered :
    (file : List ℕ) (k : ℕ) (m : List (ℕ × Early)) → Buffered file m → Buffered file (erase k m)
unfolding erase
erase-Buffered file k [] b = tt
erase-Buffered file k ((j, d) ∷ m) b = ground (arith, erase-Buffered file k m b.1)

module _ (file : List ℕ) (small : length file < 2 ^ 31) where
  -- The bytes that are due extend the prefix.
  pub extend :
      (r : Receiver) (bytes : List ℕ) (last : Bool) (m : List (ℕ × Early))
      → IsPrefix file r
      → IsChunk file (u32 (r.acked_position + 1)) bytes last
      → Buffered file m
      → IsPrefix file (record r {
        recv_data = r.recv_data ++ bytes;
        acked_position = u32 (r.acked_position + length bytes);
        fin = r.fin || last;
        buffer = m;
      })
  extend r bytes last m v c b = record {
    fits = omega (arith, c.inside);
    held = rw (position, ← take-add r.acked_position (length bytes) file) (ap₂ ◌++◌ v.held here);
    early = b;
    ended = λ e. ground (arith, v.ended, c.ends);
  }
    where
      due : u32 (r.acked_position + 1) ≡ r.acked_position + 1
      due = omega (arith, v.fits)

      position : u32 (r.acked_position + length bytes) ≡ r.acked_position + length bytes
      position = omega (arith, v.fits, c.inside)

      start : u32 (r.acked_position + 1) - 1 ≡ r.acked_position
      start = omega (arith, v.fits)

      here : bytes ≡ take (length bytes) (drop r.acked_position file)
      here = rw (← start) c.same

  pub process_packet-IsPrefix :
      (r : Receiver) (p : Packet)
      → IsPrefix file r
      → IsSegment file p
      → p.seq_num ≡ u32 (r.acked_position + 1)
      → (r' : Receiver) × (process_packet r p ≡ some r') × IsPrefix file r'
  unfolding process_packet take_packet
  process_packet-IsPrefix r p v s due = (
    take_packet r p (take p.data_len p.payload),
    rw (process_packet, read_array-eq-take p.data_len p.payload s.short),
    rw whole at (extend r (take p.data_len p.payload) p.fin r.buffer v (rw due at s.chunk) v.early),
  )
    where
      whole : length (take p.data_len p.payload) ≡ p.data_len
      whole = omega (arith, length-take p.data_len p.payload, s.short)

  pub check_early_loop-IsPrefix :
      (fuel : ℕ) (r : Receiver) → IsPrefix file r → IsPrefix file (check_early_loop fuel r)
  unfolding check_early_loop take_early
  check_early_loop-IsPrefix zero r v = v
  check_early_loop-IsPrefix (suc fuel) r v =
      elim (Option-cases (find (u32 (r.acked_position + 1)) r.buffer)) [
        | inl e ↦ rw (e, check_early_loop) v
        | inr (d, e) ↦
            rw (e, check_early_loop)
              (check_early_loop-IsPrefix fuel _ (
                extend r d.bytes d.last _ v (find-IsChunk file _ r.buffer d v.early e)
                  (erase-Buffered file _ r.buffer v.early)))
      ]

  pub store_early_data-IsPrefix :
      (mach : Machine) (r : Receiver) (p : Packet)
      → IsPrefix file r
      → IsSegment file p
      → IsPrefix file (store_early_data mach r p)
  unfolding store_early_data assign
  store_early_data-IsPrefix mach r p v s = record {
    fits = v.fits;
    held = v.held;
    early = (
      rw (resize-c_string p.data_len p.payload mach.past_packet s.short s.no_nul) s.chunk,
      erase-Buffered file p.seq_num r.buffer v.early,
    );
    ended = v.ended;
  }
