-- ===== src/Network/ServerMain.antt =====
-- client_server/server.cpp: `main`, without its output.
use comnet.Base.{
  ℕ, ◌+◌, ◌-◌, ◌^◌, ◌%◌, Bool, List, [], ◌∷◌, ◌++◌, Option, none, some, if◌then◌else◌,
}
use comnet.Base.Decimal.{atoi}
use comnet.Network.{Send}
use comnet.Network.Server.{Answer, handle_connection}
use comnet.Network.ClientMain.{port_of}

-- What the system does: `socket`, `gethostbyname` for its own name, `bind` and `listen`.
pub record Setup : Type 0 where
  pub opens : Bool
  pub named : Bool
  pub binds : ℕ → Bool
  pub listens : Bool

-- A connection: whether `fork` works, and what the child finds: whether `malloc` works, the files,
-- the memory of `buf`, the bytes that come, and the results of `send`.
pub record Visitor : Type 0 where
  pub forks : Bool
  pub memory : Bool
  pub files : List ℕ → Option (List ℕ)
  pub buffer : List ℕ
  pub stream : List ℕ
  pub sends : List Send

-- A result of `accept`.
pub data Call : Type 0 where
  refused : Call
  accepted : Visitor → Call

-- The answers of the children, in the order of their connections, and how many descriptors the
-- parent has open.
pub record Log : Type 0 where
  pub answers : List Answer
  pub opened : ℕ

-- How `main` ends, or that it waits for the next connection.
pub data Run : Type 0 where
  invalid : Run
  no_socket : Run
  no_host : Run
  not_bound : Run
  not_listening : Run
  accept_error : Log → Run
  serving : Log → Run

abbrev pub answer_to : Visitor → Answer
answer_to v = handle_connection v.memory v.files v.buffer v.stream v.sends

-- `!fork()` holds in the child only. Where `fork` fails, nobody answers.
unfoldable pub take_visitor : Log → Visitor → Log
take_visitor log v = record {
  answers = if v.forks then log.answers ++ answer_to v ∷ [] else log.answers;
  opened = log.opened + 1;
}

unfoldable pub serve : Log → List Call → Run
serve log [] = serving log
serve log (refused ∷ calls) = accept_error (record log { opened = log.opened - 1 })
serve log (accepted v ∷ calls) = serve (take_visitor log v) calls

unfoldable pub start : Setup → Option ℕ → List Call → Run
start s none calls = invalid
start s (some port) calls =
    if s.opens
    then if s.named
      then if s.binds (port % 2 ^ 16)
        then if s.listens then serve (record { answers = []; opened = 1 }) calls else not_listening
        else not_bound
      else no_host
    else no_socket

unfoldable pub server_main : Setup → List (List ℕ) → List Call → Run
server_main s (port ∷ []) calls = start s (port_of (atoi port)) calls
server_main s (a ∷ b ∷ rest) calls = invalid
server_main s [] calls = invalid
