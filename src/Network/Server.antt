-- ===== src/Network/Server.antt =====
-- client_server/server.cpp: `handle_connection` and the answers that it sends.
use comnet.Base.{ℕ, Bool, true, false, List, [], ◌∷◌, Option, none, some, ◌==◌, c_string}
use comnet.Network.{recv_line, Send, Sending, send_string, FileSent, missing, send_file}

abbrev pub bad_request : List ℕ
bad_request =
    (b'H' ∷ b'T' ∷ b'T' ∷ b'P' ∷ b' ' ∷ b'4' ∷ b'0' ∷ b'0' ∷ b' ' ∷ b'B' ∷ b'a' ∷ b'd' ∷ b' ' ∷ b'R'
      ∷ b'e' ∷ b'q' ∷ b'u' ∷ b'e' ∷ b's' ∷ b't' ∷ b'\r' ∷ b'\n' ∷ b'\n' ∷ b'\r' ∷ b'\n' ∷ [])

abbrev pub not_found : List ℕ
not_found =
    (b'H' ∷ b'T' ∷ b'T' ∷ b'P' ∷ b' ' ∷ b'4' ∷ b'0' ∷ b'4' ∷ b' ' ∷ b'N' ∷ b'o' ∷ b't' ∷ b' ' ∷ b'F'
      ∷ b'o' ∷ b'u' ∷ b'n' ∷ b'd' ∷ b'\r' ∷ b'\n' ∷ b'\n' ∷ b'\r' ∷ b'\n' ∷ [])

abbrev pub get_word : List ℕ
get_word = (b'G' ∷ b'E' ∷ b'T' ∷ b' ' ∷ [])

-- What follows `prefix`, where the text begins with it. A text that has "GET " further on, or not
-- at all, is answered in the same way.
unfoldable pub strip : List ℕ → List ℕ → Option (List ℕ)
strip [] text = some text
strip (p ∷ prefix) [] = none
strip (p ∷ prefix) (c ∷ text) = elim (p == c) [ true ↦ strip prefix text | false ↦ none ]

pub data Answer : Type 0 where
  rejects : Sending → Answer
  serves : FileSent → Answer
  misses : Sending → Answer

unfoldable pub finish : List Send → FileSent → Answer
finish events (FileSent.whole out) = serves (FileSent.whole out)
finish events (FileSent.partial out) = serves (FileSent.partial out)
finish events missing = misses (send_string not_found events)
finish events (FileSent.waits out) = serves (FileSent.waits out)
finish events FileSent.overflows = serves FileSent.overflows

unfoldable pub answer : Bool → (List ℕ → Option (List ℕ)) → List Send → Option (List ℕ) → Answer
answer memory files events none = rejects (send_string bad_request events)
answer memory files events (some name) = finish events (send_file memory (files name) events)

-- `buffer` is `buf` as the call finds it, which `recv_line` leaves where the connection closes
-- within the first line.
unfoldable pub handle_connection :
    Bool → (List ℕ → Option (List ℕ)) → List ℕ → List ℕ → List Send → Answer
handle_connection memory files buffer stream events =
    answer memory files events (strip get_word (c_string (recv_line buffer stream).buffer))
