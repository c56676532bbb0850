-- ===== src/Network/Lines.antt =====
-- Lines that are read back as they were sent.
use comnet.Base.{
  ℕ, ◌-◌, ◌≡◌, refl, ap, ◌∙◌, true, false, List, [], ◌∷◌, ◌++◌, append_assoc, arith, length,
  length-append, set, drop, c_string, if_false,
}
use comnet.Base.Join.{Lacks}
use comnet.Network.{recv_loop, end_line, recv_line}

pub recv_loop-line :
    (line rest : List ℕ)
    → Lacks b'\r' line
    → recv_loop false (line ++ b'\r' ∷ b'\n' ∷ rest) ≡ (true, line ++ b'\r' ∷ b'\n' ∷ [], rest)
unfolding recv_loop
recv_loop-line [] rest h = refl
recv_loop-line (c ∷ cs) rest h = rw (h.0, recv_loop-line cs rest h.1)

pub set-append : (xs ys : List ℕ) (c v : ℕ) → set (xs ++ c ∷ ys) (length xs) v ≡ xs ++ v ∷ ys
set-append [] ys c v = refl
set-append (x ∷ xs) ys c v = ap (λ t. x ∷ t) (set-append xs ys c v)

pub c_string-append_nul : (xs ys : List ℕ) → Lacks 0 xs → c_string (xs ++ 0 ∷ ys) ≡ xs
unfolding c_string
c_string-append_nul [] ys h = refl
c_string-append_nul (c ∷ cs) ys h =
    if_false _ _ _ h.0 ∙ ap (λ t. c ∷ t) (c_string-append_nul cs ys h.1)

-- The buffer once the end of the line is cut off.
ended : (buffer line : List ℕ) → List ℕ
ended buffer line =
    set ((line ++ b'\r' ∷ b'\n' ∷ []) ++ drop (length (line ++ b'\r' ∷ b'\n' ∷ [])) buffer)
      (length (line ++ b'\r' ∷ b'\n' ∷ []) - 2) 0

ended_lem : (buffer line : List ℕ) → Lacks 0 line → c_string (ended buffer line) ≡ line
unfolding ended
ended_lem buffer line h =
    rw (cut, append_assoc line (b'\r' ∷ b'\n' ∷ []) (behind))
      (ap c_string (set-append line (b'\n' ∷ behind) b'\r' 0)
        ∙ c_string-append_nul line (b'\n' ∷ behind) h)
  where
    behind : List ℕ
    behind = drop (length (line ++ b'\r' ∷ b'\n' ∷ [])) buffer

    cut : length (line ++ b'\r' ∷ b'\n' ∷ []) - 2 ≡ length line
    cut = omega (arith, length-append line (b'\r' ∷ b'\n' ∷ []))

-- A line without "\r" and NUL is read up to its end: the buffer holds it as a string, its length is
-- returned, and what follows is left on the stream.
pub recv_line_lem :
    (buffer line rest : List ℕ)
    → Lacks b'\r' line
    → Lacks 0 line
    → (c_string (recv_line buffer (line ++ b'\r' ∷ b'\n' ∷ rest)).buffer ≡ line)
      × ((recv_line buffer (line ++ b'\r' ∷ b'\n' ∷ rest)).count ≡ length line)
      × ((recv_line buffer (line ++ b'\r' ∷ b'\n' ∷ rest)).left ≡ rest)
unfolding recv_line end_line ended
recv_line_lem buffer line rest h z = rw (recv_loop-line line rest h) (text, ap length text, refl)
  where
    text : c_string (ended buffer line) ≡ line
    text = ended_lem buffer line z
