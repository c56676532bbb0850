-- ===== src/Network/Blocks.antt =====
-- `recv_stream` in the blocks that the socket delivers.
use comnet.Base.{
  ℕ, ◌+◌, ◌-◌, ◌≤◌, ◌≡◌, sym, false, List, [], ◌∷◌, ◌++◌, arith, ltb, ◌==◌, length, length-append,
  length-take, take, Bool-cases, inl, inr, if_false, subst,
}
use comnet.Network.{
  Recv, broken, bytes, Block, waiting, error, received, block_size, recv_rest, recv_blocks,
  recv_stream,
}

-- All the bytes asked for, or at most so many so far.
abbrev pub Fills : ℕ → Block → Type 0
Fills size (waiting got) = length got ≤ size
Fills size error = Unit {0}
Fills size (received got) = length got ≡ size

length-append_take : (got b : List ℕ) (n : ℕ) → length (got ++ take n b) ≤ length got + n
length-append_take got b n = omega (arith, length-append got (take n b), length-take n b)

recv_rest-Fills :
    (size : ℕ) (got : List ℕ) (events : List Recv)
    → length got ≤ size
    → Fills size (recv_rest size got events)
unfolding recv_rest
recv_rest-Fills size got [] h = elim (Bool-cases (length got == size)) [
  | inl full ↦ rw full (ground arith)
  | inr more ↦ rw more h
]
recv_rest-Fills size got (broken ∷ rest) h = elim (Bool-cases (length got == size)) [
  | inl full ↦ rw full (ground arith)
  | inr more ↦ rw more tt
]
recv_rest-Fills size got (bytes b ∷ rest) h = elim (Bool-cases (length got == size)) [
  | inl full ↦ rw full (ground arith)
  | inr more ↦ rw more (
      recv_rest-Fills size (got ++ take (size - length got) b) rest
        (omega (arith, length-append_take got b (size - length got))))
]

recv_blocks-Fills :
    (size : ℕ) (got : List ℕ) (events : List Recv)
    → length got ≤ size
    → Fills size (recv_blocks size got events)
unfolding recv_blocks
recv_blocks-Fills size got [] h = elim (Bool-cases (ltb block_size (size - length got))) [
  | inl far ↦ rw far h
  | inr near ↦ rw near (recv_rest-Fills size got [] h)
]
recv_blocks-Fills size got (broken ∷ rest) h =
    elim (Bool-cases (ltb block_size (size - length got))) [
      | inl far ↦ rw far tt
      | inr near ↦ rw near (recv_rest-Fills size got (broken ∷ rest) h)
    ]
recv_blocks-Fills size got (bytes b ∷ rest) h =
    elim (Bool-cases (ltb block_size (size - length got))) [
      | inl far ↦ rw far (
          recv_blocks-Fills size (got ++ take block_size b) rest
            (ground (arith, length-append_take got b block_size)))
      | inr near ↦ rw near (recv_rest-Fills size got (bytes b ∷ rest) h)
    ]

-- From 5 * 1024 bytes on: in whatever pieces the socket delivers, `recv_stream` never stores more
-- bytes than were asked for, and returns only -1 or with exactly so many.
pub recv_stream-Fills :
    (size : ℕ) (events : List Recv) → block_size ≤ size → Fills size (recv_stream size events)
unfolding recv_stream
recv_stream-Fills size events big =
    subst (Fills size) (sym (if_false _ _ _ small)) (recv_blocks-Fills size [] events (omega arith))
  where
    small : ltb size block_size ≡ false
    small = ground arith
