-- ===== src/Mp0.antt =====
-- MP0: a server that sends a short file with its length in front, a client that prints it, and a
-- pair of programs for one datagram. Here is what they share.
pub mod Client
pub mod Server
pub mod Talker
pub mod Listener
pub mod Digits
pub mod Reads
pub mod Datagram
pub mod Examples
use comnet.Base.{Bool, ◌&&◌, List, [], ◌∷◌, Option, none, some, if◌then◌else◌}

-- A result of `getaddrinfo`: whether `socket` works for it, and then `setsockopt`, and `connect` or
-- `bind`.
pub record Address : Type 0 where
  pub opens : Bool
  pub reuses : Bool
  pub attaches : Bool

-- The first address with a socket that can be connected or bound.
unfoldable pub first_attached : List Address → Option Address
first_attached [] = none
first_attached (a ∷ rest) =
    let next = first_attached rest in if a.opens && a.attaches then some a else next
