-- ===== src/Mp0/Talker.antt =====
-- MP0/talker.c: `main`, with what it sends.
use comnet.Base.{Bool, ℕ, List, [], ◌∷◌, Option, none, some, if◌then◌else◌}
use comnet.Mp0.{Address}

-- What the system does: `getaddrinfo` and `sendto`.
pub record World : Type 0 where
  pub addresses : List ℕ → Option (List Address)
  pub sends : Bool

-- How `main` ends. A datagram goes out whole or not at all.
pub data Exit : Type 0 where
  usage : Exit
  no_address : Exit
  no_socket : Exit
  not_sent : Exit
  sent : List ℕ → Exit

-- The first address with a socket.
unfoldable pub first_open : List Address → Option Address
first_open [] = none
first_open (a ∷ rest) = let next = first_open rest in if a.opens then some a else next

unfoldable pub send_to : World → List ℕ → Option Address → Exit
send_to w message none = no_socket
send_to w message (some a) = if w.sends then sent message else not_sent

unfoldable pub talk : World → List ℕ → Option (List Address) → Exit
talk w message none = no_address
talk w message (some addresses) = send_to w message (first_open addresses)

unfoldable pub talker_main : World → List (List ℕ) → Exit
talker_main w (host ∷ message ∷ []) = talk w message (w.addresses host)
talker_main w [] = usage
talker_main w (a ∷ []) = usage
talker_main w (a ∷ b ∷ c ∷ rest) = usage
