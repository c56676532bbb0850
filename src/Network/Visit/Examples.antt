-- ===== src/Network/Visit/Examples.antt =====
-- A visit for a file of two bytes.
use comnet.Base.{
  ℕ, ◌≡◌, ◌++◌, refl, true, List, [], ◌∷◌, arith, Option, false, map, sym, ap, some, c_string,
}
use comnet.Base.Int.{pos, to_int}
use comnet.Base.Decimal.{to_string, show_fuel, atoi, read_signed, skip_space, read_digits}
use comnet.Network.{
  bytes, recv_loop, end_line, recv_line, Send, took, after, send_loop, send_string, tally,
  then_send, sent, whole, conclude, send_file, send_sized, send_page, get_file_size,
}
use comnet.Network.Server.{serves, strip, finish, answer, handle_connection}
use comnet.Network.Client.{request}
use comnet.Network.Strings.{page}
use comnet.Network.ClientMain.{
  World, shows, port_of, check_host, read_args, request_buffer, client_main,
}
use comnet.Network.Visit.{answer_bytes, Succeeds, client_main-shows}
use comnet.Network.Order.{Delivers, join_pieces}
use comnet.Network.ServerMain.{
  Setup, Visitor, refused, accepted, accept_error, serving, answer_to, server_main,
}
use comnet.Network.Children.{answers_to, server_main-answers}

abbrev hi : List ℕ
hi = b'h' ∷ b'i' ∷ []

abbrev files : List ℕ → Option (List ℕ)
files name = some hi

abbrev pieces : List Send
pieces = took 5 ∷ took 100 ∷ took 100 ∷ took 100 ∷ []

abbrev world : World
world = record {
  opens = true;
  resolves = λ host. true;
  connects = λ host port. true;
  memory = λ n. true;
  sends = took 100 ∷ [];
  responds = λ out. page hi;
  delivers = λ content. bytes content ∷ [];
  heap = 1 ∷ 2 ∷ 3 ∷ 0 ∷ [];
  len = pos 0;
}

abbrev host : List ℕ
host = b'a' ∷ []

abbrev args : List (List ℕ)
args = host ∷ (b'8' ∷ b'0' ∷ b'8' ∷ b'0' ∷ []) ∷ hi ∷ []

args-good : read_args args ≡ some (host, 8080, hi)
unfolding read_args check_host port_of atoi read_signed skip_space read_digits
args-good = refl

request-asked : send_string (request_buffer hi) (took 100 ∷ []) ≡ sent (request hi) []
unfolding send_string send_loop after c_string
request-asked = refl

hi-served : handle_connection true files [] (request hi) pieces ≡ serves (whole (page hi))
unfolding handle_connection recv_line end_line recv_loop answer strip finish send_file send_sized
    send_page get_file_size to_int conclude then_send tally send_string send_loop after c_string
    to_string show_fuel
hi-served = refl

hi-delivered : Delivers hi (bytes hi ∷ [])
unfolding join_pieces
hi-delivered = (hi ∷ [], refl, refl, (omega arith, tt), λ short. refl)

world-Succeeds : Succeeds world files args host hi hi (request hi) (page hi) [] 8080 [] pieces
unfolding answer_bytes
world-Succeeds = record {
  good = args-good;
  opened = refl;
  resolved = refl;
  connected = refl;
  fits = omega arith;
  one_line = (refl, (refl, tt));
  no_nul = (refl, (refl, tt));
  asked = request-asked;
  found = refl;
  text = (refl, (refl, tt));
  small = omega arith;
  served = hi-served;
  answered = sym (ap answer_bytes hi-served);
  stored = refl;
  delivered = hi-delivered;
}

client_main-shows_example : client_main world args ≡ shows (b'h' ∷ b'i' ∷ 3 ∷ [])
unfolding c_string
client_main-shows_example =
    client_main-shows world files args host hi hi (request hi) (page hi) [] 8080 [] pieces
      world-Succeeds

abbrev setup : Setup
setup = record { opens = true; named = true; binds = λ port. true; listens = true }

abbrev guest : Visitor
guest = record {
  forks = true;
  memory = true;
  files = files;
  buffer = [];
  stream = request hi;
  sends = pieces;
}

-- The second one gets no process.
abbrev guests : List Visitor
guests = guest ∷ record guest { forks = false } ∷ []

port-good : port_of (atoi (b'8' ∷ b'0' ∷ b'8' ∷ b'0' ∷ [])) ≡ some 8080
unfolding port_of atoi read_signed skip_space read_digits
port-good = refl

server_main-answers_example :
    (server_main setup ((b'8' ∷ b'0' ∷ b'8' ∷ b'0' ∷ []) ∷ []) (map accepted guests)
      ≡ serving (record { answers = answer_to guest ∷ []; opened = 3 }))
    × (server_main setup
          ((b'8' ∷ b'0' ∷ b'8' ∷ b'0' ∷ []) ∷ [])
          (map accepted guests ++ refused ∷ accepted guest ∷ [])
        ≡ accept_error (record { answers = answer_to guest ∷ []; opened = 2 }))
unfolding answers_to
server_main-answers_example =
    server_main-answers setup (b'8' ∷ b'0' ∷ b'8' ∷ b'0' ∷ []) 8080 guests (accepted guest ∷ [])
      port-good refl refl refl refl
