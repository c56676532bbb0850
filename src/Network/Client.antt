-- ===== src/Network/Client.antt =====
-- client_server/client.cpp: the request and the reading of the header of the response.
use comnet.Base.{
  ℕ, zero, suc, ◌+◌, Bool, true, false, List, [], ◌∷◌, ◌++◌, Option, none, some, ◌==◌,
  if◌then◌else◌, length, c_string,
}
use comnet.Base.Int.{ℤ, pos, negsuc}
use comnet.Base.Decimal.{atoi}
use comnet.Network.{recv_line}
use comnet.Network.Server.{get_word}

abbrev pub request : List ℕ → List ℕ
request name = get_word ++ name ++ b'\r' ∷ b'\n' ∷ []

-- `strchr(s, c) + 1`.
unfoldable pub find_after : ℕ → List ℕ → Option (List ℕ)
find_after c [] = none
find_after c (x ∷ xs) = elim (x == c) [ true ↦ some xs | false ↦ find_after c xs ]

-- What the loop comes to: it exits with a message, `strchr` finds nothing, it never ends, or the
-- content follows.
pub data Response : Type 0 where
  bad_request : Response
  file_not_found : Response
  crashed : Response
  hanging : Response
  content : ℤ → List ℕ → Response

abbrev is_code : ℤ → ℕ → Bool
is_code (pos n) k = n == k
is_code (negsuc n) k = false

-- The body of the loop for a line that is not the last one, the first of the response, the second,
-- or a later one. The text is what `buf` holds up to its NUL.
unfoldable pub read_status : Option (List ℕ) → Response → Response
read_status none next = crashed
read_status (some code) next =
    if is_code (atoi code) 400
    then bad_request
    else if is_code (atoi code) 404
    then file_not_found
    else next

unfoldable pub read_length : Option (List ℕ) → (ℤ → Response) → Response
read_length none next = crashed
read_length (some text) next = next (atoi text)

unfoldable pub read_line : ℕ → List ℕ → ℤ → (ℤ → Response) → Response
read_line zero text len next = read_status (find_after b' ' text) (next len)
read_line (suc zero) text len next = read_length (find_after b':' text) next
read_line (suc (suc n)) text len next = next len

-- The loop, on fuel; `count` lines were read. A line of one byte ends it. Each line takes bytes from
-- the stream; once it is closed, only the first two rounds can do anything.
unfoldable pub read_header : ℕ → ℕ → ℤ → List ℕ → List ℕ → Response
read_header zero count len buffer stream = hanging
read_header (suc fuel) count len buffer stream =
    let line = recv_line buffer stream in
    elim (line.count == 1) [
      | true ↦ content len line.left
      | false ↦
          read_line count (c_string line.buffer) len
            λ len'. read_header fuel (count + 1) len' line.buffer line.left
    ]

-- `len` and `buffer` are what `content_length` and `buf` hold before.
unfoldable pub read_response : ℤ → List ℕ → List ℕ → Response
read_response len buffer stream = read_header (length stream + 3) 0 len buffer stream
