-- ===== src/Receiver/Main.antt =====
-- MP2/receiver.cpp: `main`, with the constructor of the receiver. What it prints is the file alone,
-- without the messages on the way.
pub mod Fresh
pub mod Null
pub mod Prints
pub mod Answers
pub mod Speaks
pub mod Takes
pub mod Examples
use comnet.Base.{ℕ, Bool, true, false, List, [], ◌∷◌, ◌++◌}
use comnet.Packet.{Packet}
use comnet.Stream.{Disk}
use comnet.Receiver.{
  Receiver, Machine, Arrival, Outcome, waiting, returned, returned_null, faulted, initial,
  open_socket, receive,
}
use comnet.Receiver.Pattern.{Loading, loaded, refused, crashed, hanging, open_loss_pattern}

-- How `main` ends: with the usage or without a socket, with a pointer that is NULL, with a read of
-- `saveData` past the packet, never, or with the bytes that it prints; or it waits for a datagram. The
-- packets are the acknowledgements that it has sent.
pub data Exit : Type 0 where
  usage : Exit
  no_socket : Exit
  crashes : Exit
  undefined : Exit
  hangs : Exit
  prints : List ℕ → List Packet → Exit
  waits : Receiver → List Packet → Exit

-- The result of `receive` is used whether or not it is NULL.
unfoldable pub print : Outcome → Exit
print (waiting r sent) = waits r sent
print (returned r sent) = prints (r.recv_data ++ b'\n' ∷ []) sent
print returned_null = crashes
print faulted = undefined

unfoldable pub listen : Machine → List Arrival → Receiver × Bool → Exit
listen mach arrivals (r, true) = print (receive mach r arrivals)
listen mach arrivals (r, false) = no_socket

-- The constructor goes on where the loss pattern is refused.
unfoldable pub run : Machine → Bool → List Arrival → Loading → Exit
run mach works arrivals (loaded r) = listen mach arrivals (open_socket works r)
run mach works arrivals (refused r) = listen mach arrivals (open_socket works r)
run mach works arrivals crashed = crashes
run mach works arrivals hanging = hangs

-- `works` says whether the constructor of the socket returns.
unfoldable pub receiver_main :
    Machine → (List ℕ → Disk) → Bool → List (List ℕ) → List Arrival → Exit
receiver_main mach disks works (port ∷ loss ∷ []) arrivals =
    run mach works arrivals (open_loss_pattern (disks loss) initial)
receiver_main mach disks works [] arrivals = usage
receiver_main mach disks works (a ∷ []) arrivals = usage
receiver_main mach disks works (a ∷ b ∷ c ∷ rest) arrivals = usage
