-- ===== src/Network.antt =====
-- client_server/network.{h,cpp}: lines, blocks, strings and files over a socket.
-- What the socket does is a list of results of its calls. A buffer is as long as what is written
-- into it.
pub mod Server
pub mod Client
pub mod Lines
pub mod Overrun
pub mod Strings
pub mod Blocks
pub mod Order
pub mod ClientMain
pub mod Visit
pub mod ServerMain
pub mod Children
pub mod Fetch
pub mod Answers
pub mod Examples
use comnet.Base.{
  ℕ, zero, suc, ◌+◌, ◌-◌, ◌*◌, ◌^◌, Bool, true, false, List, [], ◌∷◌, ◌++◌, Option, none, some, ltb,
  ◌==◌, if◌then◌else◌, length, set, take, drop, c_string,
}
use comnet.Base.Int.{ℤ, pos, negsuc, to_int}
use comnet.Base.Decimal.{to_string}

-- The loop of `recv_line`: whether the end of a line was seen, the bytes that were stored, and what
-- is left of the stream. The flag is `eol_matched`.
unfoldable pub recv_loop : Bool → List ℕ → Bool × List ℕ × List ℕ
recv_loop matched [] = (false, [], [])
recv_loop false (c ∷ cs) =
    let (seen, stored, left) = recv_loop (c == b'\r') cs in (seen, c ∷ stored, left)
recv_loop true (c ∷ cs) =
    let (seen, stored, left) = recv_loop false cs in
    if c == b'\n' then (true, c ∷ [], cs) else (seen, c ∷ stored, left)

-- The result of `recv_line`, the buffer afterwards, and what is left of the stream.
pub record Line : Type 0 where
  pub count : ℕ
  pub buffer : List ℕ
  pub left : List ℕ

-- `*(ptr+1-EOL_SIZE) = '\0'` stands over the first byte of the end of the line.
unfoldable pub end_line : List ℕ → Bool × List ℕ × List ℕ → Line
end_line buffer (seen, stored, left) =
    let filled = stored ++ drop (length stored) buffer in
    if seen
    then (record {
      count = length (c_string (set filled (length stored - 2) 0));
      buffer = set filled (length stored - 2) 0;
      left = left;
    })
    else record { count = 0; buffer = filled; left = left }

unfoldable pub recv_line : List ℕ → List ℕ → Line
recv_line buffer stream = end_line buffer (recv_loop false stream)

-- A result of `recv`: an error, or the bytes that came, of which no more are taken than were asked
-- for; no bytes once the other end has closed.
pub data Recv : Type 0 where
  broken : Recv
  bytes : List ℕ → Recv

-- `recv_stream` after a list of results: it waits for more, or returned -1 or its data.
pub data Block : Type 0 where
  waiting : List ℕ → Block
  error : Block
  received : List ℕ → Block

abbrev pub block_size : ℕ
block_size = 5 * 1024

-- The second loop, up to the size.
unfoldable pub recv_rest : ℕ → List ℕ → List Recv → Block
recv_rest size got [] = if length got == size then received got else waiting got
recv_rest size got (broken ∷ rest) = if length got == size then received got else error
recv_rest size got (bytes b ∷ rest) =
    let more = recv_rest size (got ++ take (size - length got) b) rest in
    if length got == size then received got else more

-- The first loop, in blocks.
unfoldable pub recv_blocks : ℕ → List ℕ → List Recv → Block
recv_blocks size got [] =
    if ltb block_size (size - length got) then waiting got else recv_rest size got []
recv_blocks size got (broken ∷ rest) =
    if ltb block_size (size - length got) then error else recv_rest size got (broken ∷ rest)
recv_blocks size got (bytes b ∷ rest) =
    let more = recv_blocks size (got ++ take block_size b) rest in
    if ltb block_size (size - length got) then more else recv_rest size got (bytes b ∷ rest)

-- The one call with MSG_WAITALL.
unfoldable pub recv_small : ℕ → List Recv → Block
recv_small size [] = waiting []
recv_small size (broken ∷ rest) = error
recv_small size (bytes b ∷ rest) = received (take size b)

unfoldable pub recv_stream : ℕ → List Recv → Block
recv_stream size events =
    if ltb size block_size then recv_small size events else recv_blocks size [] events

-- A result of `send`: an error, or how many bytes it took.
pub data Send : Type 0 where
  refused : Send
  took : ℕ → Send

-- `send_string`: 1, 0, or still waiting; with the bytes that went out and the results left.
pub data Sending : Type 0 where
  sent : List ℕ → List Send → Sending
  failed : List ℕ → List Send → Sending
  blocked : List ℕ → Sending

-- Bytes that went out before.
unfoldable pub after : List ℕ → Sending → Sending
after out (sent more left) = sent (out ++ more) left
after out (failed more left) = failed (out ++ more) left
after out (blocked more) = blocked (out ++ more)

unfoldable pub send_loop : List ℕ → List Send → Sending
send_loop [] events = sent [] events
send_loop (c ∷ cs) [] = blocked []
send_loop (c ∷ cs) (refused ∷ rest) = failed [] rest
send_loop (c ∷ cs) (took n ∷ rest) = after (take n (c ∷ cs)) (send_loop (drop n (c ∷ cs)) rest)

unfoldable pub send_string : List ℕ → List Send → Sending
send_string buf events = send_loop (c_string buf) events

-- The next string of `send_file` is sent also after a failure; `counted` is `send_count`.
pub data Counting : Type 0 where
  counting : ℕ → List ℕ → List Send → Counting
  stuck : List ℕ → Counting

unfoldable pub tally : ℕ → List ℕ → Sending → Counting
tally count out (sent more left) = counting (count + 1) (out ++ more) left
tally count out (failed more left) = counting count (out ++ more) left
tally count out (blocked more) = stuck (out ++ more)

unfoldable pub then_send : List ℕ → Counting → Counting
then_send buf (counting count out left) = tally count out (send_string buf left)
then_send buf (stuck out) = stuck out

abbrev pub ok_line : List ℕ
ok_line =
    (b'H' ∷ b'T' ∷ b'T' ∷ b'P' ∷ b' ' ∷ b'2' ∷ b'0' ∷ b'0' ∷ b' ' ∷ b'O' ∷ b'K' ∷ b'\r' ∷ b'\n'
      ∷ [])

abbrev pub length_word : List ℕ
length_word =
    (b'C' ∷ b'o' ∷ b'n' ∷ b't' ∷ b'e' ∷ b'n' ∷ b't' ∷ b'-' ∷ b'L' ∷ b'e' ∷ b'n' ∷ b'g' ∷ b't' ∷ b'h'
      ∷ b':' ∷ [])

abbrev pub length_line : ℕ → List ℕ
length_line n = length_word ++ to_string n ++ (b'\r' ∷ b'\n' ∷ b'\n' ∷ b'\r' ∷ b'\n' ∷ [])

-- What `send_file` returned, with the bytes that went out: 1, 0 or -1; or it waits, or `length + 1`
-- overflows, which C++ leaves undefined.
pub data FileSent : Type 0 where
  whole : List ℕ → FileSent
  partial : List ℕ → FileSent
  missing : FileSent
  waits : List ℕ → FileSent
  overflows : FileSent

unfoldable pub conclude : Counting → FileSent
conclude (counting count out left) = if count == 3 then whole out else partial out
conclude (stuck out) = waits out

-- The size as an `int`, which keeps its low 32 bits; -1 where the file is not there.
unfoldable pub get_file_size : Option (List ℕ) → ℤ
get_file_size none = negsuc 0
get_file_size (some file) = to_int (length file)

-- The header and the page, of a length that is not negative.
unfoldable pub send_page : Bool → List ℕ → ℕ → List Send → FileSent
send_page memory file n events =
    if n == 2 ^ 31 - 1
    then overflows
    else (if memory
        then conclude (
            then_send (take n file)
              (then_send (length_line n) (then_send ok_line (counting 0 [] events))))
        else partial [])

-- Another negative length than -1 is a `size_t` beyond any memory for `malloc`.
unfoldable pub send_sized : Bool → List ℕ → ℤ → List Send → FileSent
send_sized memory file (pos n) events = send_page memory file n events
send_sized memory file (negsuc zero) events = missing
send_sized memory file (negsuc (suc n)) events = partial []

-- `file` is what the file system has under the name; the flag says whether `malloc` has memory for
-- it and the NUL.
unfoldable pub send_file : Bool → Option (List ℕ) → List Send → FileSent
send_file memory none events = send_sized memory [] (get_file_size none) events
send_file memory (some file) events = send_sized memory file (get_file_size (some file)) events
