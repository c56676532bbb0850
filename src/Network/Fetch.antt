-- ===== src/Network/Fetch.antt =====
-- The client against the server: a request, and the response to it.
use comnet.Base.{
  Bool, ℕ, suc, ◌+◌, ◌≡◌, refl, sym, ap, ◌∙◌, true, false, List, [], ◌∷◌, ◌++◌, append_assoc, arith,
  Option, some, length, ◌==◌, ◌<◌, ◌-◌, ◌^◌,
}
use comnet.Base.Int.{ℤ, pos}
use comnet.Base.Decimal.{atoi, read_signed, skip_space, read_digits, to_string}
use comnet.Base.Join.{Lacks, Lacks-append, lacks-Lacks, Lacks-shown, atoi-shown}
use comnet.Network.{
  recv_line, Send, FileSent, whole, partial, missing, waits, overflows, send_file, length_word,
}
use comnet.Network.Server.{get_word, strip, serves, finish, answer, handle_connection}
use comnet.Network.Client.{
  request, find_after, Response, content, read_status, read_length, read_line, read_header,
  read_response,
}
use comnet.Network.Lines.{recv_line_lem}
use comnet.Network.Strings.{page, send_file-whole}

abbrev status_text : List ℕ
status_text = (b'H' ∷ b'T' ∷ b'T' ∷ b'P' ∷ b' ' ∷ b'2' ∷ b'0' ∷ b'0' ∷ b' ' ∷ b'O' ∷ b'K' ∷ [])

abbrev length_text : ℕ → List ℕ
length_text n = length_word ++ to_string n

abbrev pub end_of_line : List ℕ → List ℕ
end_of_line rest = b'\r' ∷ b'\n' ∷ rest

page-lines :
    (file : List ℕ)
    → page file
      ≡ status_text
        ++ end_of_line (length_text (length file) ++ end_of_line (b'\n' ∷ end_of_line file))
page-lines file =
    ap (λ t. status_text ++ end_of_line (length_word ++ t))
      (append_assoc (to_string (length file)) ((b'\r' ∷ b'\n' ∷ b'\n' ∷ b'\r' ∷ b'\n' ∷ [])) file)

status_text-Lacks : (Lacks b'\r' status_text) × (Lacks 0 status_text)
status_text-Lacks = (lacks-Lacks b'\r' status_text refl, lacks-Lacks 0 status_text refl)

length_text-Lacks : (n : ℕ) → (Lacks b'\r' (length_text n)) × (Lacks 0 (length_text n))
length_text-Lacks n = (
  Lacks-append b'\r' (length_word) (to_string n) (lacks-Lacks b'\r' length_word refl)
      (Lacks-shown b'\r' n refl),
  Lacks-append 0 (length_word) (to_string n) (lacks-Lacks 0 length_word refl)
      (Lacks-shown 0 n refl),
)

pub read_header-line :
    (fuel count : ℕ) (len : ℤ) (buffer line rest : List ℕ)
    → (Lacks b'\r' line) × (Lacks 0 line)
    → (length line == 1) ≡ false
    → read_header (suc fuel) count len buffer (line ++ end_of_line rest)
      ≡ read_line count line len λ len'.
        read_header fuel (count + 1) len' (recv_line buffer (line ++ end_of_line rest)).buffer rest
unfolding read_header
read_header-line fuel count len buffer line rest h long =
    let (text, size, left) = recv_line_lem buffer line rest h.0 h.1 in
    rw (read_header, size, long, text, left)

read_header-end :
    (fuel count : ℕ) (len : ℤ) (buffer rest : List ℕ)
    → read_header (suc fuel) count len buffer (b'\n' ∷ end_of_line rest) ≡ content len rest
unfolding read_header
read_header-end fuel count len buffer rest =
    let (text, size, left) = recv_line_lem buffer (b'\n' ∷ []) rest (refl, tt) (refl, tt) in
    rw (read_header, size, left)

read_line-status : (len : ℤ) (next : ℤ → Response) → read_line 0 status_text len next ≡ next len
unfolding read_line read_status find_after atoi read_signed skip_space read_digits
read_line-status len next = refl

read_line-length :
    (n : ℕ) (len : ℤ) (next : ℤ → Response) → read_line 1 (length_text n) len next ≡ next (pos n)
unfolding read_line read_length find_after
read_line-length n len next = ap next (atoi-shown n)

-- The client takes the length and the content from the page that the server sends, whatever its
-- buffers hold before.
pub read_response-page :
    (len : ℤ) (buffer file : List ℕ)
    → read_response len buffer (page file) ≡ content (pos (length file)) file
unfolding read_response
read_response-page len buffer file =
    ap (λ n. read_header n 0 len buffer (page file)) (three_more (length (page file)))
    ∙ ap (read_header _ 0 len buffer) (page-lines file)
    ∙ read_header-line _ 0 len buffer status_text _ status_text-Lacks refl
    ∙ read_line-status len _
    ∙ read_header-line _ 1 len _ (length_text (length file)) _ (length_text-Lacks _)
        (long (length file))
    ∙ read_line-length (length file) len _
    ∙ read_header-end _ 2 (pos (length file)) _ file
  where
    three_more : (n : ℕ) → n + 3 ≡ suc (suc (suc n))
    three_more n = omega arith

    long : (n : ℕ) → (length (length_text n) == 1) ≡ false
    long n = ground arith

-- The server understands the request of the client: for a name without "\r" and NUL it sends what
-- `send_file` makes of that file, or its answer for a missing file.
pub handle_connection-request :
    (memory : Bool) (files : List ℕ → Option (List ℕ)) (buffer name rest : List ℕ)
    (events : List Send)
    → Lacks b'\r' name
    → Lacks 0 name
    → handle_connection memory files buffer (request name ++ rest) events
      ≡ finish events (send_file memory (files name) events)
unfolding handle_connection answer strip
handle_connection-request memory files buffer name rest events h z =
    ap (λ t. handle_connection memory files buffer (get_word ++ t) events)
      (append_assoc name ((b'\r' ∷ b'\n' ∷ [])) rest)
    ∙ ap (λ t. answer memory files events (strip get_word t))
        (recv_line_lem buffer (get_word ++ name) rest
          (Lacks-append b'\r' get_word name (lacks-Lacks b'\r' get_word refl) h)
          (Lacks-append 0 get_word name (lacks-Lacks 0 get_word refl) z)).0

finish-serves :
    (events : List Send) (out : List ℕ) (f : FileSent)
    → finish events f ≡ serves (whole out)
    → f ≡ whole out
unfolding finish
finish-serves events out (whole x) e = cc
finish-serves events out (partial x) e = cc
finish-serves events out missing e = cc
finish-serves events out (waits x) e = cc
finish-serves events out overflows e = cc

-- A file without NUL bytes and of less than 2 ^ 31 - 1 bytes, under a name without "\r" and NUL:
-- where the server has sent all of it, in whatever pieces, the client finds its length and its
-- content in what was sent.
pub fetch :
    (files : List ℕ → Option (List ℕ)) (name file rest out server_buffer client_buffer : List ℕ)
    (events : List Send) (len : ℤ)
    → Lacks b'\r' name
    → Lacks 0 name
    → Lacks 0 file
    → length file < 2 ^ 31 - 1
    → files name ≡ some file
    → handle_connection true files server_buffer (request name ++ rest) events ≡ serves (whole out)
    → read_response len client_buffer out ≡ content (pos (length file)) file
fetch files name file rest out server_buffer client_buffer events len h z no_nul small found e =
    ap (read_response len client_buffer) (send_file-whole file out events no_nul small sent_whole)
    ∙ read_response-page len client_buffer file
  where
    answered : finish events (send_file true (some file) events) ≡ serves (whole out)
    answered =
        ap (λ f. finish events (send_file true f events)) (sym found)
        ∙ sym (handle_connection-request true files server_buffer name rest events h z)
        ∙ e

    sent_whole : send_file true (some file) events ≡ whole out
    sent_whole = finish-serves events out (send_file true (some file) events) answered
