-- ===== src/Network/ClientMain.antt =====
-- client_server/client.cpp: `main`, without its output before the content and without the times.
use comnet.Base.{
  ℕ, ◌+◌, ◌-◌, ◌^◌, ◌%◌, Bool, List, [], ◌∷◌, ◌++◌, Option, none, some, ltb, leb, if◌then◌else◌,
  length, drop, c_string, replicate,
}
use comnet.Base.Int.{ℤ, pos, negsuc}
use comnet.Base.Decimal.{atoi}
use comnet.Network.{
  Send, Sending, sent, failed, blocked, send_string, Recv, Block, waiting, error, received,
  recv_stream,
}
use comnet.Network.Client
use comnet.Network.Client.{
  Response, file_not_found, crashed, hanging, content, request, read_response,
}

-- What the system and the other end do: `socket`, `gethostbyname`, `connect` and `malloc`, the
-- results of `send`, all that the other end sends once it has some bytes, how `recv` hands over the
-- content, and what the memory of `malloc` and `content_length` hold before.
pub record World : Type 0 where
  pub opens : Bool
  pub resolves : List ℕ → Bool
  pub connects : List ℕ → ℕ → Bool
  pub memory : ℕ → Bool
  pub sends : List Send
  pub responds : List ℕ → List ℕ
  pub delivers : List ℕ → List Recv
  pub heap : List ℕ
  pub len : ℤ

-- How `main` ends: the messages of its exits, the ends that it does not mean to have, or with the
-- text that it prints.
pub data Exit : Type 0 where
  invalid : Exit
  no_socket : Exit
  no_host : Exit
  no_connection : Exit
  overruns : Exit
  bad_request : Exit
  not_found : Exit
  crashes : Exit
  hangs : Exit
  no_memory : Exit
  not_received : Exit
  shows : List ℕ → Exit

unfoldable pub port_of : ℤ → Option ℕ
port_of (pos n) = if leb n 1000 then none else some n
port_of (negsuc n) = none

unfoldable pub check_host : List ℕ → Option ℕ → List ℕ → Option (List ℕ × ℕ × List ℕ)
check_host host none name = none
check_host host (some port) name = if ltb 1000 (length host) then none else some (host, port, name)

-- The arguments without the program's name: the host, the port and the file.
unfoldable pub read_args : List (List ℕ) → Option (List ℕ × ℕ × List ℕ)
read_args (host ∷ port ∷ name ∷ []) = check_host host (port_of (atoi port)) name
read_args (a ∷ b ∷ c ∷ d ∷ rest) = none
read_args (a ∷ b ∷ []) = none
read_args (a ∷ []) = none
read_args [] = none

-- `cout << content_ptr` prints up to a NUL, also behind what was received.
unfoldable pub show_content : List ℕ → Block → Exit
show_content heap (waiting got) = hangs
show_content heap error = not_received
show_content heap (received got) = shows (c_string (got ++ drop (length got) heap))

-- A negative length is too large a size for `malloc`.
unfoldable pub fetch_content : World → Response → Exit
fetch_content w Client.bad_request = bad_request
fetch_content w file_not_found = not_found
fetch_content w crashed = crashes
fetch_content w hanging = hangs
fetch_content w (content (negsuc n) left) = no_memory
fetch_content w (content (pos n) left) =
    if w.memory n then show_content w.heap (recv_stream n (w.delivers left)) else no_memory

-- `buf`, which is filled up with NULs.
abbrev pub request_buffer : List ℕ → List ℕ
request_buffer name = request name ++ replicate (1024 - length (request name)) 0

-- The result of `send_string` is not looked at.
unfoldable pub converse : World → List ℕ → Sending → Exit
converse w name (sent out left) =
    fetch_content w (read_response w.len (request_buffer name) (w.responds out))
converse w name (failed out left) =
    fetch_content w (read_response w.len (request_buffer name) (w.responds out))
converse w name (blocked out) = hangs

-- `strcat` runs over the 1024 bytes of `buf` where the name is too long.
unfoldable pub connect : World → Option (List ℕ × ℕ × List ℕ) → Exit
connect w none = invalid
connect w (some (host, port, name)) =
    if w.opens
    then if w.resolves host
      then if w.connects host (port % 2 ^ 16)
        then if ltb 1024 (length (request name) + 1)
          then overruns
          else converse w name (send_string (request_buffer name) w.sends)
        else no_connection
      else no_host
    else no_socket

unfoldable pub client_main : World → List (List ℕ) → Exit
client_main w args = connect w (read_args args)
