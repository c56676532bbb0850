-- ===== src/Network/Answers.antt =====
-- Every answer of the server, as the client reads it.
use comnet.Base.{
  Bool, ℕ, suc, ◌+◌, ◌≡◌, ◌≢◌, refl, ap, ◌∙◌, true, false, List, [], ◌∷◌, ◌++◌, arith, Option, none,
  some, length, c_string, ◌==◌, ◌<◌, ◌-◌, ◌^◌, subst, sym,
}
use comnet.Base.Int.{ℤ, pos}
use comnet.Base.Decimal.{atoi, read_signed, skip_space, read_digits}
use comnet.Base.Join.{Lacks, lacks-Lacks, c_string-Lacks}
use comnet.Network.{
  recv_line, Send, Sending, sent, failed, blocked, send_string, FileSent, whole, partial, missing,
  waits, overflows, send_file, send_sized, get_file_size, Counting, counting, stuck, conclude,
}
use comnet.Network.Server.{
  bad_request, not_found, get_word, strip, Answer, rejects, serves, misses, finish, answer,
  handle_connection,
}
use comnet.Network.Client
use comnet.Network.Client.{
  Response, file_not_found, content, find_after, read_status, read_line, read_header, read_response,
}
use comnet.Network.Strings.{Sends, send_string-Sends, send_parts, send_file-small, send_file-whole}
use comnet.Network.Fetch.{end_of_line, read_header-line, read_response-page}

abbrev bad_text : List ℕ
bad_text =
    (b'H' ∷ b'T' ∷ b'T' ∷ b'P' ∷ b' ' ∷ b'4' ∷ b'0' ∷ b'0' ∷ b' ' ∷ b'B' ∷ b'a' ∷ b'd' ∷ b' ' ∷ b'R'
      ∷ b'e' ∷ b'q' ∷ b'u' ∷ b'e' ∷ b's' ∷ b't' ∷ [])

abbrev missing_text : List ℕ
missing_text =
    (b'H' ∷ b'T' ∷ b'T' ∷ b'P' ∷ b' ' ∷ b'4' ∷ b'0' ∷ b'4' ∷ b' ' ∷ b'N' ∷ b'o' ∷ b't' ∷ b' ' ∷ b'F'
      ∷ b'o' ∷ b'u' ∷ b'n' ∷ b'd' ∷ [])

-- A response whose status line ends the reading.
read_response-status :
    (len : ℤ) (buffer line rest : List ℕ) (out : Response)
    → (Lacks b'\r' line) × (Lacks 0 line)
    → (length line == 1) ≡ false
    → ((next : ℤ → Response) → read_line 0 line len next ≡ out)
    → read_response len buffer (line ++ end_of_line rest) ≡ out
unfolding read_response
read_response-status len buffer line rest out h long stops =
    ap (λ n. read_header n 0 len buffer (line ++ end_of_line rest)) (one_more _)
    ∙ read_header-line _ 0 len buffer line rest h long
    ∙ stops _
  where
    one_more : (n : ℕ) → n + 3 ≡ suc (n + 2)
    one_more n = omega arith

bad_text-Lacks : (Lacks b'\r' bad_text) × (Lacks 0 bad_text)
bad_text-Lacks = (lacks-Lacks b'\r' bad_text refl, lacks-Lacks 0 bad_text refl)

missing_text-Lacks : (Lacks b'\r' missing_text) × (Lacks 0 missing_text)
missing_text-Lacks = (lacks-Lacks b'\r' missing_text refl, lacks-Lacks 0 missing_text refl)

read_line-bad : (len : ℤ) (next : ℤ → Response) → read_line 0 bad_text len next ≡ Client.bad_request
unfolding read_line read_status find_after atoi read_signed skip_space read_digits
read_line-bad len next = refl

read_line-missing :
    (len : ℤ) (next : ℤ → Response) → read_line 0 missing_text len next ≡ file_not_found
unfolding read_line read_status find_after atoi read_signed skip_space read_digits
read_line-missing len next = refl

-- What was sent whole reads as what it is: the answer to a text that does not ask for a file, the
-- one for a file that is not there, or the file that was asked for.
abbrev pub Understood : (List ℕ → Option (List ℕ)) → ℤ → List ℕ → Option (List ℕ) → Answer → Type 0
Understood files len buffer asked (rejects (sent out left)) =
    (asked ≡ none) × (read_response len buffer out ≡ Client.bad_request)
Understood files len buffer asked (rejects (failed out left)) = asked ≡ none
Understood files len buffer asked (rejects (blocked out)) = asked ≡ none
Understood files len buffer asked (misses (sent out left)) =
    (name : List ℕ) × (asked ≡ some name)
    × (files name ≡ none)
    × (read_response len buffer out ≡ file_not_found)
Understood files len buffer asked (misses (failed out left)) =
    (name : List ℕ) × (asked ≡ some name) × (files name ≡ none)
Understood files len buffer asked (misses (blocked out)) =
    (name : List ℕ) × (asked ≡ some name) × (files name ≡ none)
Understood files len buffer asked (serves (whole out)) =
    (name : List ℕ) × (file : List ℕ) × (asked ≡ some name)
    × (files name ≡ some file)
    × (read_response len buffer out ≡ content (pos (length file)) file)
Understood files len buffer asked (serves (partial out)) =
    (name : List ℕ) × (file : List ℕ) × (asked ≡ some name) × (files name ≡ some file)
Understood files len buffer asked (serves missing) = ⊥
Understood files len buffer asked (serves overflows) = ⊥
Understood files len buffer asked (serves (waits out)) =
    (name : List ℕ) × (file : List ℕ) × (asked ≡ some name) × (files name ≡ some file)

read_response-bad :
    (len : ℤ) (buffer out : List ℕ)
    → out ≡ c_string bad_request
    → read_response len buffer out ≡ Client.bad_request
read_response-bad len buffer out h =
    ap (read_response len buffer) (h ∙ c_string-Lacks bad_request (lacks-Lacks 0 bad_request refl))
    ∙ read_response-status len buffer bad_text (b'\n' ∷ b'\r' ∷ b'\n' ∷ []) _ bad_text-Lacks refl
        (read_line-bad len)

read_response-missing :
    (len : ℤ) (buffer out : List ℕ)
    → out ≡ c_string not_found
    → read_response len buffer out ≡ file_not_found
read_response-missing len buffer out h =
    ap (read_response len buffer) (h ∙ c_string-Lacks not_found (lacks-Lacks 0 not_found refl))
    ∙ read_response-status len buffer missing_text (b'\n' ∷ b'\r' ∷ b'\n' ∷ []) _ missing_text-Lacks
        refl (read_line-missing len)

module _ (files : List ℕ → Option (List ℕ)) (len : ℤ) (buffer : List ℕ) where
  rejects-Understood :
      (s : Sending) → Sends (c_string bad_request) s → Understood files len buffer none (rejects s)
  rejects-Understood (sent out left) h = (refl, read_response-bad len buffer out h)
  rejects-Understood (failed out left) h = refl
  rejects-Understood (blocked out) h = refl

  misses-Understood :
      (name : List ℕ) (s : Sending)
      → files name ≡ none
      → Sends (c_string not_found) s
      → Understood files len buffer (some name) (misses s)
  misses-Understood name (sent out left) e h =
      (name, refl, e, read_response-missing len buffer out h)
  misses-Understood name (failed out left) e h = (name, refl, e)
  misses-Understood name (blocked out) e h = (name, refl, e)

  serves-Understood :
      (name file : List ℕ) (f : FileSent) (events : List Send)
      → files name ≡ some file
      → (Lacks 0 file) × (length file < 2 ^ 31 - 1)
      → send_file true (some file) events ≡ f
      → (f ≢ missing) × (f ≢ overflows)
      → Understood files len buffer (some name) (serves f)
  serves-Understood name file (whole out) events e h eq there = (
    name,
    file,
    refl,
    e,
    ap (read_response len buffer) (send_file-whole file out events h.0 h.1 eq)
        ∙ read_response-page len buffer file,
  )
  serves-Understood name file (partial out) events e h eq there = (name, file, refl, e)
  serves-Understood name file missing events e h eq there = there.0 refl
  serves-Understood name file overflows events e h eq there = there.1 refl
  serves-Understood name file (waits out) events e h eq there = (name, file, refl, e)

  finish-serves :
      (f : FileSent) (name : List ℕ) (events : List Send)
      → f ≢ missing
      → Understood files len buffer (some name) (serves f)
      → Understood files len buffer (some name) (finish events f)
  unfolding finish
  finish-serves (whole out) name events there u = u
  finish-serves (partial out) name events there u = u
  finish-serves missing name events there u = absurd (there refl)
  finish-serves (waits out) name events there u = u
  finish-serves overflows name events there u = u

  conclude_there : (c : Counting) → (conclude c ≢ missing) × (conclude c ≢ overflows)
  unfolding conclude
  conclude_there (counting count out left) = (λ e. ground arith, λ e. ground arith)
  conclude_there (stuck out) = (λ e. cc, λ e. cc)

  finish-Understood :
      (memory : Bool) (name : List ℕ) (file : Option (List ℕ)) (events : List Send)
      → files name ≡ file
      → ((file : List ℕ) → files name ≡ some file → (Lacks 0 file) × (length file < 2 ^ 31 - 1))
      → Understood files len buffer (some name) (finish events (send_file memory file events))
  unfolding send_file send_sized get_file_size finish
  finish-Understood memory name none events e plain =
      misses-Understood name (send_string not_found events) e (send_string-Sends not_found events)
  finish-Understood true name (some file) events e plain =
      let small = send_file-small true file events (plain file e).1 in
      let there = conclude_there (send_parts file events) in
      subst (λ f. Understood files len buffer (some name) (finish events f)) (sym small)
        (finish-serves _ name events there.0
          (serves-Understood name file _ events e (plain file e) small there))
  finish-Understood false name (some file) events e plain =
      subst (λ f. Understood files len buffer (some name) (finish events f))
        (sym (send_file-small false file events (plain file e).1)) (name, file, refl, e)

  answer-Understood :
      (memory : Bool) (asked : Option (List ℕ)) (events : List Send)
      → ((name file : List ℕ)
          → files name ≡ some file
          → (Lacks 0 file) × (length file < 2 ^ 31 - 1))
      → Understood files len buffer asked (answer memory files events asked)
  unfolding answer
  answer-Understood memory none events plain =
      rejects-Understood (send_string bad_request events) (send_string-Sends bad_request events)
  answer-Understood memory (some name) events plain =
      finish-Understood memory name (files name) events refl (plain name)

-- Where no file holds a NUL byte or has 2 ^ 31 - 1 bytes or more, the answer to any bytes on a
-- connection goes by what the first line asks for: "HTTP 400" where it does not ask for a file,
-- "HTTP 404" where that file is not there, else that file; and what was sent whole, the client
-- reads as just that, whatever its buffers hold before.
pub handle_connection-Understood :
    (memory : Bool) (files : List ℕ → Option (List ℕ)) (server_buffer buffer stream : List ℕ)
    (events : List Send) (len : ℤ)
    → ((name file : List ℕ) → files name ≡ some file → (Lacks 0 file) × (length file < 2 ^ 31 - 1))
    → Understood files len buffer
        (strip get_word (c_string (recv_line server_buffer stream).buffer))
        (handle_connection memory files server_buffer stream events)
unfolding handle_connection
handle_connection-Understood memory files server_buffer buffer stream events len plain =
    answer-Understood files len buffer memory _ events plain
