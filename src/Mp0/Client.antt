-- ===== src/Mp0/Client.antt =====
-- MP0/client.c: `main`, with the last two lines that it prints.
use comnet.Base.{
  ◌^◌, ltb, if◌then◌else◌, ℕ, ◌+◌, ◌-◌, ◌*◌, true, false, List, [], ◌∷◌, Option, none, some, take,
  c_string,
}
use comnet.Base.Decimal.{is_digit}
use comnet.Mp0.{Address, first_attached}

-- What the system does: `getaddrinfo`, and the one call of `recv`, which may fail.
pub record World : Type 0 where
  pub addresses : List ℕ → Option (List Address)
  pub receives : Option (List ℕ)

pub data Exit : Type 0 where
  usage : Exit
  no_address : Exit
  not_connected : Exit
  not_received : Exit
  shows : ℕ → List ℕ → Exit
  overflows : Exit

-- The loop over the digits: the number, and what follows. It does not get smaller on the way, so that
-- the end tells whether `num` has left the `int`.
unfoldable pub take_digits : ℕ → List ℕ → ℕ × List ℕ
take_digits num [] = (num, [])
take_digits num (c ∷ cs) = elim (is_digit c) [
  | true ↦ take_digits (num * 10 + (c - b'0')) cs
  | false ↦ (num, c ∷ cs)
]

unfoldable pub show_number : ℕ × List ℕ → Exit
show_number (num, rest) = if ltb num (2 ^ 31) then shows num (c_string rest) else overflows

-- `recv` takes at most MAXDATASIZE - 1 bytes.
unfoldable pub show_received : Option (List ℕ) → Exit
show_received none = not_received
show_received (some got) = show_number (take_digits 0 (take 102 got))

unfoldable pub receive_from : World → Option Address → Exit
receive_from w none = not_connected
receive_from w (some a) = show_received w.receives

unfoldable pub connect_any : World → Option (List Address) → Exit
connect_any w none = no_address
connect_any w (some addresses) = receive_from w (first_attached addresses)

unfoldable pub client_main : World → List (List ℕ) → Exit
client_main w (host ∷ []) = connect_any w (w.addresses host)
client_main w [] = usage
client_main w (a ∷ b ∷ rest) = usage
