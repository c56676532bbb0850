-- ===== src/Sender/Main.antt =====
-- MP2/sender.cpp: `main`.
use comnet.Base.{ℕ, Bool, true, false, List, [], ◌∷◌}
use comnet.Stream.{Disk, Stream}
use comnet.Sender.{Sender, World, initial, open_socket}
use comnet.Sender.Replies.{Reply, Outcome, waiting, returned, transmit}

-- How `main` ends, or that it waits for a reply. It exits with -1 after the usage or without a
-- socket, and otherwise with 0, whatever `transmit` returned.
pub data Exit : Type 0 where
  usage : Exit
  no_socket : Exit
  waits : Sender → Exit
  done : Sender → Exit

unfoldable pub exit_of : Outcome → Exit
exit_of (waiting s) = waits s
exit_of (returned worked s) = done s

unfoldable pub send_out : World → List Reply → Sender × Bool → Exit
send_out w replies (s, true) = exit_of (transmit w s replies)
send_out w replies (s, false) = no_socket

-- What the program finds: the files, whether the constructor of the socket returns, and what the
-- constructor of the sender leaves as it is.
pub record Start : Type 0 where
  pub disks : List ℕ → Disk
  pub opens : Bool
  pub garbage : ℕ
  pub unset : Stream

-- The arguments are the file, the host and the port of the receiver.
unfoldable pub sender_main : World → Start → List (List ℕ) → List Reply → Exit
sender_main w st (name ∷ host ∷ port ∷ []) replies =
    send_out (record w { disk = st.disks name }) replies
      (open_socket st.opens (initial st.garbage st.unset))
sender_main w st [] replies = usage
sender_main w st (a ∷ []) replies = usage
sender_main w st (a ∷ b ∷ []) replies = usage
sender_main w st (a ∷ b ∷ c ∷ d ∷ rest) replies = usage
