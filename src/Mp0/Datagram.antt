-- ===== src/Mp0/Datagram.antt =====
-- The listener of MP0 against the talker.
use comnet.Base.{ℕ, ◌≡◌, ap, ◌∙◌, true, List, [], ◌∷◌, some, if_true, length, take}
use comnet.Base.Join.{Lacks, Lacks-take, c_string-Lacks}
use comnet.Mp0.{Address, first_attached}
use comnet.Mp0.Talker
use comnet.Mp0.Talker.{sent, first_open, send_to, talk, talker_main}
use comnet.Mp0.Listener
use comnet.Mp0.Listener.{shows, show_packet, receive_one, bind_any, listener_main}

-- Where the talker finds a socket and `sendto` works, it sends its second argument, as one datagram;
-- and where the listener gets that datagram, it prints its first 99 bytes and how many they are.
pub listener_main-talker_main :
    (tw : Talker.World) (lw : Listener.World) (host message : List ℕ) (places spots : List Address)
    (a b : Address)
    → tw.addresses host ≡ some places
    → first_open places ≡ some a
    → tw.sends ≡ true
    → lw.addresses ≡ some spots
    → first_attached spots ≡ some b
    → lw.receives ≡ some message
    → Lacks 0 message
    → (talker_main tw (host ∷ message ∷ []) ≡ sent message)
      × (listener_main lw ≡ shows (length (take 99 message)) (take 99 message))
unfolding talker_main talk send_to listener_main bind_any receive_one show_packet
listener_main-talker_main tw lw host message places spots a b t o s l f r no_nul = (
  ap (talk tw message) t ∙ ap (send_to tw message) o ∙ if_true _ _ _ s,
  ap (bind_any lw) l
      ∙ ap (receive_one lw) f
      ∙ ap show_packet r
      ∙ ap (shows (length (take 99 message)))
          (c_string-Lacks (take 99 message) (Lacks-take 0 99 message no_nul)),
)
