-- ===== src/Segment.antt =====
-- What the datagrams of MP2 mean: the segments of one file. Sequence numbers count the bytes of the
-- file from one, as `filePosition_+1` of the sender and `ackedPosition_ + 1` of the receiver do.
use comnet.Base.{ℕ, ◌+◌, ◌-◌, ◌≤◌, ◌≡◌, Bool, true, List, length, take, drop, NonZero}
use comnet.Packet.{Packet}

module _ (file : List ℕ) where
  -- `bytes` stand in the file at sequence number `k`, which counts from one; `last` says that
  -- they end it.
  pub record IsChunk (k : ℕ) (bytes : List ℕ) (last : Bool) : Type 0 where
    pub counted : 1 ≤ k
    pub inside : k + length bytes ≤ length file + 1
    pub same : bytes ≡ take (length bytes) (drop (k - 1) file)
    pub ends : last ≡ true → k + length bytes ≡ length file + 1

  -- A packet that carries a segment of the file, with no NUL byte in it.
  pub record IsSegment (p : Packet) : Type 0 where
    pub chunk : IsChunk p.seq_num (take p.data_len p.payload) p.fin
    pub short : p.data_len ≤ length p.payload
    pub no_nul : NonZero (take p.data_len p.payload)
