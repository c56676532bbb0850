-- ===== src/Network/Order.antt =====
-- `recv_stream` returns the bytes in their order.
use comnet.Base.{
  ℕ, ◌-◌, ◌≤◌, ◌≡◌, sym, ap, ◌∙◌, true, List, [], ◌∷◌, ◌++◌, append_assoc, append-nil, arith, ltb,
  ◌==◌, length, length-append, take_all, Bool-cases, inl, inr, if_false, if_true, map,
}
use comnet.Network.{
  Recv, broken, bytes, received, block_size, recv_rest, recv_blocks, recv_small, recv_stream,
}

unfoldable pub join_pieces : List (List ℕ) → List ℕ
join_pieces [] = []
join_pieces (p ∷ ps) = p ++ join_pieces ps

-- No piece is longer than a block.
abbrev pub AreSmall : List (List ℕ) → Type 0
AreSmall [] = Unit {0}
AreSmall (p ∷ ps) = (length p ≤ block_size) × AreSmall ps

full-nil : (got more : List ℕ) → length (got ++ more) ≡ length got → got ++ more ≡ got
full-nil got [] h = append-nil got
full-nil got (c ∷ cs) h = absurd (omega (arith, length-append got (c ∷ cs), h))

-- What the loop has, and what the pieces still hold.
module _ (size : ℕ) where
  joined :
      (got p rest : List ℕ)
      → size ≡ length (got ++ (p ++ rest))
      → size ≡ length ((got ++ p) ++ rest)
  joined got p rest h = h ∙ ap length (sym (append_assoc got p rest))

  fits : (got p rest : List ℕ) → size ≡ length (got ++ (p ++ rest)) → length p ≤ size - length got
  fits got p rest h = omega (arith, length-append got (p ++ rest), length-append p rest, h)

  recv_rest-stops :
      (got : List ℕ) (events : List Recv)
      → (length got == size) ≡ true
      → recv_rest size got events ≡ received got
  unfolding recv_rest
  recv_rest-stops got [] full = if_true _ _ _ full
  recv_rest-stops got (broken ∷ rest) full = if_true _ _ _ full
  recv_rest-stops got (bytes b ∷ rest) full = if_true _ _ _ full

  recv_rest-join :
      (got : List ℕ) (ps : List (List ℕ))
      → size ≡ length (got ++ join_pieces ps)
      → recv_rest size got (map bytes ps) ≡ received (got ++ join_pieces ps)
  unfolding recv_rest join_pieces
  recv_rest-join got [] h =
      recv_rest-stops got [] (ground (arith, append-nil got)) ∙ ap received (sym (append-nil got))
  recv_rest-join got (p ∷ ps) h = elim (Bool-cases (length got == size)) [
    | inl full ↦
        if_true _ _ _ full
        ∙ ap received (sym (full-nil got (p ++ join_pieces ps) (sym h ∙ ground arith)))
    | inr short ↦
        if_false _ _ _ short
        ∙ ap (λ t. recv_rest size (got ++ t) (map bytes ps)) (take_all _ p (fits got p _ h))
        ∙ recv_rest-join (got ++ p) ps (joined got p _ h)
        ∙ ap received (append_assoc got p (join_pieces ps))
  ]

  recv_blocks-join :
      (got : List ℕ) (ps : List (List ℕ))
      → AreSmall ps
      → size ≡ length (got ++ join_pieces ps)
      → recv_blocks size got (map bytes ps) ≡ received (got ++ join_pieces ps)
  unfolding recv_blocks join_pieces
  recv_blocks-join got [] small h = elim (Bool-cases (ltb block_size (size - length got))) [
    | inl far ↦ absurd (ground (arith, append-nil got))
    | inr near ↦ if_false _ _ _ near ∙ recv_rest-join got [] h
  ]
  recv_blocks-join got (p ∷ ps) small h = elim (Bool-cases (ltb block_size (size - length got))) [
    | inl far ↦
        if_true _ _ _ far
        ∙ ap (λ t. recv_blocks size (got ++ t) (map bytes ps)) (take_all _ p small.0)
        ∙ recv_blocks-join (got ++ p) ps small.1 (joined got p _ h)
        ∙ ap received (append_assoc got p (join_pieces ps))
    | inr near ↦ if_false _ _ _ near ∙ recv_rest-join got (p ∷ ps) h
  ]

-- How the socket hands over bytes that are all there: with MSG_WAITALL at once, otherwise in pieces
-- of at most a block.
abbrev pub Delivers : List ℕ → List Recv → Type 0
Delivers sent events =
    (ps : List (List ℕ)) × (events ≡ map bytes ps)
    × (join_pieces ps ≡ sent)
    × AreSmall ps
    × (ltb (length sent) block_size ≡ true → ps ≡ sent ∷ [])

recv_small-whole :
    (sent : List ℕ) (ps : List (List ℕ))
    → ps ≡ sent ∷ []
    → recv_small (length sent) (map bytes ps) ≡ received sent
unfolding recv_small
recv_small-whole sent ps e =
    ap (λ t. recv_small (length sent) (map bytes t)) e
    ∙ ap received (take_all (length sent) sent (omega arith))

-- Bytes that are all there, asked for by their number: `recv_stream` returns them as they are,
-- whatever pieces the socket hands them over in.
pub recv_stream-Delivers :
    (sent : List ℕ) (events : List Recv)
    → Delivers sent events
    → recv_stream (length sent) events ≡ received sent
unfolding recv_stream
recv_stream-Delivers sent events (ps, e, whole, small, at_once) =
    ap (recv_stream (length sent)) e ∙ elim (Bool-cases (ltb (length sent) block_size)) [
      | inl short ↦ if_true _ _ _ short ∙ recv_small-whole sent ps (at_once short)
      | inr long ↦
          if_false _ _ _ long
          ∙ recv_blocks-join (length sent) [] ps small (ap length (sym whole))
          ∙ ap received whole
    ]
