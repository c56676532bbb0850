-- ===== src/Network/Overrun.antt =====
-- What `recv_line` writes behind the buffer of its caller.
use Prim.Native.Nat.{max}
use native.Mathlib.Nat.{suc-add}
use comnet.Base.{
  ℕ, zero, suc, ◌+◌, ◌-◌, ◌≡◌, refl, sym, ap, ◌∙◌, false, List, [], ◌∷◌, ◌++◌, append_assoc, arith,
  length, length-append, drop,
}
use comnet.Base.Join.{Lacks}
use comnet.Network.{recv_loop, end_line, recv_line}
use comnet.Network.Lines.{recv_loop-line, set-append}

drop-drop : (n k : ℕ) (xs : List ℕ) → drop n (drop k xs) ≡ drop (k + n) xs
drop-drop n zero xs = ap (λ j. drop j xs) (omega arith)
drop-drop zero (suc k) [] = ap {A = ℕ} (λ j. drop j []) {x = suc k} (omega arith)
drop-drop (suc n) (suc k) [] = rw suc-add refl
drop-drop n (suc k) (x ∷ xs) = rw suc-add (drop-drop n k xs)

drop-append : (n : ℕ) (xs ys : List ℕ) → drop n (xs ++ ys) ≡ drop n xs ++ drop (n - length xs) ys
drop-append zero xs ys = ap {A = ℕ} (λ j. xs ++ drop j ys) {x = 0} (omega arith)
drop-append (suc n) [] ys = ap {A = ℕ} (λ j. drop j ys) {x = suc n} (omega arith)
drop-append (suc n) (x ∷ xs) ys =
    drop-append n xs ys ∙ ap (λ j. drop n xs ++ drop j ys) (omega arith)

-- Memory from a buffer of `size` bytes on, once `xs` is written from its start.
drop-written :
    (size : ℕ) (xs memory : List ℕ)
    → drop size (xs ++ drop (length xs) memory) ≡ drop size xs ++ drop (max size (length xs)) memory
drop-written size xs memory =
    drop-append size xs (drop (length xs) memory)
    ∙ ap (λ t. drop size xs ++ t)
        (drop-drop (size - length xs) (length xs) memory ∙ ap (λ j. drop j memory) (omega arith))

recv_loop-closed : (line : List ℕ) → Lacks b'\r' line → recv_loop false line ≡ (false, line, [])
unfolding recv_loop
recv_loop-closed [] h = refl
recv_loop-closed (c ∷ cs) h = rw (h.0, recv_loop-closed cs h.1)

-- The bytes of a line, and of its end, that are written.
abbrev pub written : List ℕ → List ℕ
written line = line ++ 0 ∷ b'\n' ∷ []

length-written : (line : List ℕ) → length (written line) ≡ length (line ++ b'\r' ∷ b'\n' ∷ [])
length-written line =
    omega (arith, length-append line (0 ∷ b'\n' ∷ []), length-append line (b'\r' ∷ b'\n' ∷ []))

recv_line-buffer :
    (memory line rest : List ℕ)
    → Lacks b'\r' line
    → (recv_line memory (line ++ b'\r' ∷ b'\n' ∷ rest)).buffer
      ≡ written line ++ drop (length (written line)) memory
unfolding recv_line end_line
recv_line-buffer memory line rest h =
    rw (recv_loop-line line rest h, cut, append_assoc line (b'\r' ∷ b'\n' ∷ []) behind)
      (set-append line (b'\n' ∷ behind) b'\r' 0
        ∙ sym (append_assoc line (0 ∷ b'\n' ∷ []) behind)
        ∙ ap (λ n. written line ++ drop n memory) (sym (length-written line)))
  where
    behind : List ℕ
    behind = drop (length (line ++ b'\r' ∷ b'\n' ∷ [])) memory

    cut : length (line ++ b'\r' ∷ b'\n' ∷ []) - 2 ≡ length line
    cut = omega (arith, length-append line (b'\r' ∷ b'\n' ∷ []))

-- A buffer of any size, and the memory behind it: a line without "\r" is written with a NUL and a
-- "\n" after it, and where that is more than the buffer holds the rest lands behind it; all that
-- lies further on is as before. So it is with a line that the connection breaks off, without the
-- two bytes.
pub recv_line-overruns :
    (size : ℕ) (memory line rest : List ℕ)
    → Lacks b'\r' line
    → (drop size (recv_line memory (line ++ b'\r' ∷ b'\n' ∷ rest)).buffer
        ≡ drop size (written line) ++ drop (max size (length line + 2)) memory)
      × (drop size (recv_line memory line).buffer
          ≡ drop size line ++ drop (max size (length line)) memory)
unfolding recv_line end_line
recv_line-overruns size memory line rest h = (
  ap (drop size) (unfold recv_line end_line in recv_line-buffer memory line rest h)
      ∙ drop-written size (written line) memory
      ∙ ap (λ n. drop size (written line) ++ drop (max size n) memory)
          (length-append line (0 ∷ b'\n' ∷ [])),
  ap (λ out. drop size (end_line memory out).buffer) (recv_loop-closed line h)
      ∙ drop-written size line memory,
)
