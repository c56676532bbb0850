-- ===== src/Network/Examples.antt =====
-- A page of two bytes, that goes out in pieces.
use comnet.Base.{
  ℕ, ◌≡◌, refl, true, List, [], ◌∷◌, ◌++◌, arith, Option, none, some, replicate, c_string,
}
use comnet.Base.Int.{pos, to_int}
use comnet.Base.Decimal.{to_string, show_fuel}
use comnet.Network.{
  bytes, recv_stream, recv_loop, end_line, recv_line, Send, took, after, send_loop, send_string,
  tally, then_send, whole, conclude, send_file, send_sized, send_page, get_file_size,
}
use comnet.Network.Server.{serves, strip, finish, answer, handle_connection}
use comnet.Network.Client.{request, content, read_response}
use comnet.Network.Strings.{Sends, send_string-Sends, page}
use comnet.Network.Overrun.{recv_line-overruns}
use comnet.Base.{drop}
use comnet.Network.Blocks.{Fills, recv_stream-Fills}
use comnet.Network.Answers.{Understood, handle_connection-Understood}
use comnet.Network.Fetch.{fetch}

abbrev hi : List ℕ
hi = b'h' ∷ b'i' ∷ []

abbrev files : List ℕ → Option (List ℕ)
files name = some hi

-- The status line in two pieces, the others whole.
abbrev pieces : List Send
pieces = took 5 ∷ took 100 ∷ took 100 ∷ took 100 ∷ []

hi-sent : send_file true (some hi) pieces ≡ whole (page hi)
unfolding send_file send_sized send_page get_file_size to_int conclude then_send tally send_string
    send_loop after c_string to_string show_fuel
hi-sent = refl

send_string-Sends_example : Sends (c_string hi) (send_string hi (took 1 ∷ took 1 ∷ []))
send_string-Sends_example = send_string-Sends hi (took 1 ∷ took 1 ∷ [])

recv_stream-Fills_example :
    Fills 6000 (recv_stream 6000 (bytes (replicate 900 1) ∷ bytes (replicate 5120 2) ∷ []))
recv_stream-Fills_example =
    recv_stream-Fills 6000 (bytes (replicate 900 1) ∷ bytes (replicate 5120 2) ∷ []) (omega arith)

-- A line of two bytes, and a buffer of three.
recv_line-overruns_example :
    (drop 3 (recv_line (replicate 6 9) (hi ++ b'\r' ∷ b'\n' ∷ [])).buffer ≡ b'\n' ∷ 9 ∷ 9 ∷ [])
    × (drop 3 (recv_line (replicate 6 9) hi).buffer ≡ 9 ∷ 9 ∷ 9 ∷ [])
recv_line-overruns_example = recv_line-overruns 3 (replicate 6 9) hi [] (refl, (refl, tt))

hi-served : handle_connection true files [] (request hi ++ []) pieces ≡ serves (whole (page hi))
unfolding handle_connection recv_line end_line recv_loop answer strip finish send_file send_sized
    send_page get_file_size to_int conclude then_send tally send_string send_loop after c_string
    to_string show_fuel
hi-served = refl

fetch_example : read_response (pos 0) [] (page hi) ≡ content (pos 2) hi
fetch_example =
    fetch files hi hi [] (page hi) [] [] pieces (pos 0) (refl, (refl, tt)) (refl, (refl, tt))
      (refl, (refl, tt)) (omega arith) refl hi-served

-- No file is there.
handle_connection-Understood_example :
    Understood
      (λ name. none)
      (pos 0)
      hi
      (some hi)
      (handle_connection true (λ name. none) [] (request hi) (took 30 ∷ []))
unfolding recv_line end_line recv_loop strip c_string
handle_connection-Understood_example =
    handle_connection-Understood true (λ name. none) [] hi (request hi) (took 30 ∷ []) (pos 0)
      (λ name file e. absurd (none_some e))
  where
    none_some : {xs : List ℕ} → none ≡ some xs → ⊥
    none_some e = cc
