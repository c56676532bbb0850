-- ===== src/Network/Strings.antt =====
-- Strings that go out in pieces, as `send` takes them.
use comnet.Base.{
  ℕ, ◌+◌, ◌-◌, ◌^◌, ◌<◌, ◌≤◌, Bool, true, false, if◌then◌else◌, ◌≡◌, refl, sym, ap, ◌∙◌, List, [],
  ◌∷◌, ◌++◌, append_assoc, arith, some, length, take, take_all, drop, take-append-drop, c_string,
  ◌==◌, Bool-cases, inl, inr, subst, if_true, if_false,
}
use comnet.Base.Join.{Lacks, lacks-Lacks, Lacks-append, Lacks-shown, c_string-Lacks}
use comnet.Base.Decimal.{to_string}
use comnet.Network.{
  Send, refused, took, Sending, sent, failed, blocked, after, send_loop, send_string, Counting,
  counting, stuck, tally, then_send, ok_line, length_word, length_line, whole, partial, conclude,
  send_file, send_sized, send_page, get_file_size,
}
use comnet.Base.Int.{to_int-small}

-- What went out is a prefix of the text, and all of it where 1 is returned.
abbrev pub Sends : List ℕ → Sending → Type 0
Sends text (sent out left) = out ≡ text
Sends text (failed out left) = (rest : List ℕ) × (text ≡ out ++ rest)
Sends text (blocked out) = (rest : List ℕ) × (text ≡ out ++ rest)

after-Sends : (out text : List ℕ) (s : Sending) → Sends text s → Sends (out ++ text) (after out s)
unfolding after
after-Sends out text (sent more left) h = ap (λ t. out ++ t) h
after-Sends out text (failed more left) h =
    (h.0, ap (λ t. out ++ t) h.1 ∙ sym (append_assoc out more h.0))
after-Sends out text (blocked more) h =
    (h.0, ap (λ t. out ++ t) h.1 ∙ sym (append_assoc out more h.0))

send_loop-Sends : (text : List ℕ) (events : List Send) → Sends text (send_loop text events)
unfolding send_loop
send_loop-Sends [] events = refl
send_loop-Sends (c ∷ cs) [] = (c ∷ cs, refl)
send_loop-Sends (c ∷ cs) (refused ∷ rest) = (c ∷ cs, refl)
send_loop-Sends (c ∷ cs) (took n ∷ rest) =
    subst (λ t. Sends t (after (take n (c ∷ cs)) (send_loop (drop n (c ∷ cs)) rest)))
      (take-append-drop n (c ∷ cs))
      (after-Sends (take n (c ∷ cs)) (drop n (c ∷ cs)) _ (send_loop-Sends (drop n (c ∷ cs)) rest))

-- Whatever `send` takes at each call, the bytes that went out are a prefix of the string up to its
-- NUL, and they are the whole of it where `send_string` returns 1.
pub send_string-Sends :
    (buf : List ℕ) (events : List Send) → Sends (c_string buf) (send_string buf events)
unfolding send_string
send_string-Sends buf events = send_loop-Sends (c_string buf) events

-- `send_count` is at most the number of strings, and then all of them went out.
abbrev Counts : ℕ → List ℕ → Counting → Type 0
Counts n text (counting count out left) = (count ≤ n) × (count ≡ n → out ≡ text)
Counts n text (stuck out) = Unit {0}

tally-Counts :
    (n count : ℕ) (text out more : List ℕ) (s : Sending)
    → count ≤ n
    → (count ≡ n → out ≡ text)
    → Sends more s
    → Counts (n + 1) (text ++ more) (tally count out s)
unfolding tally
tally-Counts n count text out more (sent x left) le all h =
    (omega arith, λ e. ap (λ t. out ++ t) h ∙ ap (λ t. t ++ more) (all (omega arith)))
tally-Counts n count text out more (failed x left) le all h =
    (omega arith, λ e. absurd (omega arith))
tally-Counts n count text out more (blocked x) le all h = tt

then_send-Counts :
    (n : ℕ) (text buf : List ℕ) (c : Counting)
    → Counts n text c
    → Counts (n + 1) (text ++ c_string buf) (then_send buf c)
unfolding then_send
then_send-Counts n text buf (counting count out left) h =
    tally-Counts n count text out (c_string buf) (send_string buf left) h.0 h.1
      (send_string-Sends buf left)
then_send-Counts n text buf (stuck out) h = tt

conclude-whole :
    (text : List ℕ) (c : Counting) (out : List ℕ)
    → Counts 3 text c
    → conclude c ≡ whole out
    → out ≡ text
unfolding conclude
conclude-whole text (counting count x left) out h e = elim (Bool-cases (count == 3)) [
  | inl three ↦
      let same : whole x ≡ whole out = sym (if_true _ _ _ three) ∙ e in
      let all : x ≡ text = h.1 (ground arith) in cc
  | inr other ↦ let clash : partial x ≡ whole out = sym (if_false _ _ _ other) ∙ e in cc
]
conclude-whole text (stuck x) out h e = cc

-- What `send_file` sends of a file.
abbrev pub page : List ℕ → List ℕ
page file = (ok_line ++ length_line (length file)) ++ file

length_line-Lacks : (n : ℕ) → Lacks 0 (length_line n)
length_line-Lacks n =
    Lacks-append 0 length_word _ (lacks-Lacks 0 length_word refl)
      (Lacks-append 0 (to_string n) line_end (Lacks-shown 0 n refl) (lacks-Lacks 0 line_end refl))
  where
    line_end : List ℕ
    line_end = b'\r' ∷ b'\n' ∷ b'\n' ∷ b'\r' ∷ b'\n' ∷ []

ok_line-Lacks : Lacks 0 ok_line
ok_line-Lacks = lacks-Lacks 0 ok_line refl

-- `send_count` for a file of this length, after the three calls.
abbrev pub send_parts : List ℕ → List Send → Counting
send_parts file events =
    then_send file
      (then_send (length_line (length file)) (then_send ok_line (counting 0 [] events)))

-- A file whose length and one more is an `int` is neither cut off nor missing.
pub send_file-small :
    (memory : Bool) (file : List ℕ) (events : List Send)
    → length file < 2 ^ 31 - 1
    → send_file memory (some file) events
      ≡ (if memory then conclude (send_parts file events) else partial [])
unfolding send_file get_file_size send_sized send_page
send_file-small memory file events small =
    let fits : (length file == 2 ^ 31 - 1) ≡ false = ground arith in
    ap (λ z. send_sized memory file z events) (to_int-small (length file) (omega arith))
    ∙ if_false _ _ _ fits
    ∙ ap
        (λ t.
          if memory
          then conclude (
              then_send t
                (then_send (length_line (length file)) (then_send ok_line (counting 0 [] events))))
          else partial [])
        (take_all (length file) file (omega arith))

-- Where `send_file` returns 1, the status line, the length and the whole of a file without NUL
-- bytes, whose length and one more is an `int`, went out, in this order.
pub send_file-whole :
    (file out : List ℕ) (events : List Send)
    → Lacks 0 file
    → length file < 2 ^ 31 - 1
    → send_file true (some file) events ≡ whole out
    → out ≡ page file
send_file-whole file out events h small e =
    conclude-whole _ _ out
      (then_send-Counts 2 _ file _ (
        then_send-Counts 1 _ (length_line (length file)) _
          (then_send-Counts 0 [] ok_line (counting 0 [] events) (omega arith, λ z. refl))))
      (sym (send_file-small true file events small) ∙ e)
    ∙ rw (
      c_string-Lacks ok_line ok_line-Lacks,
      c_string-Lacks (length_line (length file)) (length_line-Lacks (length file)),
      c_string-Lacks file h,
    )
