-- ===== src/Mp0/Listener.antt =====
-- MP0/listener.c: `main`, with what it prints of the datagram.
use comnet.Base.{ℕ, List, Option, none, some, length, take, c_string}
use comnet.Mp0.{Address, first_attached}

-- What the system does: `getaddrinfo`, and the one call of `recvfrom`, which may fail.
pub record World : Type 0 where
  pub addresses : Option (List Address)
  pub receives : Option (List ℕ)

-- How `main` ends: it prints how long the datagram is, and its text.
pub data Exit : Type 0 where
  no_address : Exit
  not_bound : Exit
  not_received : Exit
  shows : ℕ → List ℕ → Exit

-- `recvfrom` takes at most MAXBUFLEN - 1 bytes.
unfoldable pub show_packet : Option (List ℕ) → Exit
show_packet none = not_received
show_packet (some got) = shows (length (take 99 got)) (c_string (take 99 got))

unfoldable pub receive_one : World → Option Address → Exit
receive_one w none = not_bound
receive_one w (some a) = show_packet w.receives

unfoldable pub bind_any : World → Option (List Address) → Exit
bind_any w none = no_address
bind_any w (some addresses) = receive_one w (first_attached addresses)

unfoldable pub listener_main : World → Exit
listener_main w = bind_any w w.addresses
