-- ===== src/Mp0/Examples.antt =====
-- A file of two letters.
use comnet.Base.{ℕ, ◌≡◌, ◌↔◌, refl, true, false, arith, List, [], ◌∷◌, some, length, take}
use comnet.Base.Decimal.{Stops}
use comnet.Mp0.{Address, first_attached}
use comnet.Mp0.Server
use comnet.Mp0.Server.{accepted, bound, bind_first, f_length, out, serving, server_main}
use comnet.Mp0.Client
use comnet.Mp0.Client.{shows, client_main}
use comnet.Mp0.Reads.{client_main-served}

abbrev hi : List ℕ
hi = b'h' ∷ b'i' ∷ []

abbrev closed : Address
closed = record { opens = false; reuses = true; attaches = true }

abbrev works : Address
works = record { opens = true; reuses = true; attaches = true }

abbrev places : List Address
places = closed ∷ works ∷ []

abbrev server_world : Server.World
server_world = record {
  files = λ name. some hi;
  sizes = true;
  addresses = some places;
  listens = true;
  handles = true;
}

abbrev client_world : Client.World
client_world = record { addresses = λ host. some places; receives = some (out 2 hi) }

places-bound : bind_first places ≡ bound
unfolding bind_first
places-bound = refl

places-attached : first_attached places ≡ some works
unfolding first_attached
places-attached = refl

client_main-served_example :
    (server_main server_world (hi ∷ []) (accepted true (length (out 2 hi)) ∷ [])
      ≡ serving (out 2 hi ∷ []))
    × ((client_main client_world (hi ∷ []) ≡ shows (f_length 2) (take (f_length 2) hi))
        ↔ Stops (take (f_length 2) hi))
client_main-served_example =
    client_main-served server_world client_world hi hi hi places places works refl
      (refl, (refl, tt)) refl (omega arith) refl places-bound refl refl refl places-attached refl
