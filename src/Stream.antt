-- ===== src/Stream.antt =====
-- The `ifstream` of MP2/sender_state_machine.cpp, as the C++11 library describes it.
-- A read that meets the end of the file sets eofbit and failbit together, and a seek clears only
-- eofbit, so one flag tells whether the stream still works.
use comnet.Base.{
  ◌≡◌, refl, false, if_false, arith, ℕ, ◌+◌, Bool, not, List, [], if◌then◌else◌, ltb, length, take,
  drop,
}
use comnet.Base.Int.{ℤ, pos, negsuc}

-- The file as `open` finds it.
pub record Disk : Type 0 where
  pub readable : Bool
  pub contents : List ℕ

pub record Stream : Type 0 where
  pub position : ℕ
  pub failing : Bool

unfoldable pub open_file : Disk → Stream
open_file d = record { position = 0; failing = not d.readable }

unfoldable pub seek : ℕ → Stream → Stream
seek p s = if s.failing then s else record s { position = p }

-- `tellg`: -1 once the stream fails.
unfoldable pub tell : Stream → ℤ
tell s = if s.failing then negsuc 0 else pos s.position

-- What `read(buffer, n)` stores; its length is `gcount()`.
unfoldable pub chunk : Disk → ℕ → Stream → List ℕ
chunk d n s = if s.failing then [] else take n (drop s.position d.contents)

unfoldable pub read : Disk → ℕ → Stream → Stream
unfolding chunk
read d n s = record {
  position = s.position + length (chunk d n s);
  failing = ltb (length (chunk d n s)) n;
}

pub read_lem :
    (d : Disk) (n : ℕ) (s : Stream)
    → ((read d n s).failing ≡ ltb (length (chunk d n s)) n)
      × ((read d n s).position ≡ s.position + length (chunk d n s))
unfolding read
read_lem d n s = (refl, refl)

pub chunk-working :
    (d : Disk) (n : ℕ) (s : Stream)
    → s.failing ≡ false
    → chunk d n s ≡ take n (drop s.position d.contents)
unfolding chunk
chunk-working d n s ok = if_false _ _ _ ok

pub seek-working :
    (p : ℕ) (s : Stream)
    → s.failing ≡ false
    → ((seek p s).position ≡ p) × ((seek p s).failing ≡ false)
unfolding seek
seek-working p s ok = ground arith

pub seek-failing : (p : ℕ) (s : Stream) → (seek p s).failing ≡ s.failing
unfolding seek
seek-failing p s = ground arith
