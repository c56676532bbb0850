-- ===== src/Receiver/Main/Prints.antt =====
-- What the receiving program prints.
use comnet.Base.{
  ℕ, ◌^◌, ◌<◌, ◌≡◌, refl, ap, Bool, true, false, List, [], ◌∷◌, ◌++◌, inl, inr, ◌⊎◌, length,
}
use comnet.Stream.{Disk}
use comnet.Receiver.{
  Receiver, Machine, Arrival, Outcome, waiting, returned, returned_null, faulted, initial,
  open_socket, receive,
}
use comnet.Receiver.Pattern.{Loading, loaded, refused, crashed, hanging, open_loss_pattern}
use comnet.Receiver.Delivery.{IsPrefix, AllCarry, Delivers, receive-Delivers}
use comnet.Receiver.Main
use comnet.Receiver.Main.{
  Exit, usage, no_socket, crashes, hangs, prints, waits, print, listen, run, receiver_main,
}
use comnet.Receiver.Main.Fresh.{IsFresh, LoadsFresh, open_loss_pattern-LoadsFresh, IsFresh-IsPrefix}
use comnet.Receiver.Main.Null.{Raises, EndsNull, receive_loop-EndsNull}

-- The end of the program, by what makes it possible.
abbrev pub Prints : List ℕ → Loading → Bool → List Arrival → Exit → Type 0
Prints file l works arrivals (prints text acks) = text ≡ file ++ b'\n' ∷ []
Prints file l works arrivals (waits r acks) = IsPrefix file r
Prints file l works arrivals crashes = (l ≡ crashed) ⊎ Raises arrivals
Prints file l works arrivals hangs = l ≡ hanging
Prints file l works arrivals Main.undefined = ⊥
Prints file l works arrivals usage = ⊥
Prints file l works arrivals no_socket = works ≡ false

module _ (file : List ℕ) (small : length file < 2 ^ 31) (mach : Machine) where
  print-Prints :
      (l : Loading) (works : Bool) (arrivals : List Arrival) (out : Outcome)
      → Delivers file small out
      → EndsNull arrivals out
      → Prints file l works arrivals (print out)
  unfolding print
  print-Prints l works arrivals (waiting r sent) d n = d
  print-Prints l works arrivals (returned r sent) d n = ap (λ t. t ++ b'\n' ∷ []) d
  print-Prints l works arrivals returned_null d n = inr n
  print-Prints l works arrivals faulted d n = d

  opened-Prints :
      (l : Loading) (works : Bool) (arrivals : List Arrival) (r : Receiver)
      → AllCarry file small arrivals
      → IsFresh r
      → Prints file l works arrivals (listen mach arrivals (open_socket works r))
  unfolding listen open_socket receive
  opened-Prints l true arrivals r s h =
      print-Prints l true arrivals _
        (receive-Delivers file small mach (record r { opened = true }) arrivals
          (IsFresh-IsPrefix file r h) s).0
        (receive_loop-EndsNull mach arrivals (record r { opened = true }) [])
  opened-Prints l false arrivals r s h = refl

  run-Prints :
      (works : Bool) (arrivals : List Arrival) (l : Loading)
      → AllCarry file small arrivals
      → LoadsFresh l
      → Prints file l works arrivals (run mach works arrivals l)
  unfolding run
  run-Prints works arrivals (loaded r) s h = opened-Prints (loaded r) works arrivals r s h
  run-Prints works arrivals (refused r) s h = opened-Prints (refused r) works arrivals r s h
  run-Prints works arrivals crashed s h = inl refl
  run-Prints works arrivals hanging s h = refl

  -- With two arguments, whatever the loss file holds, and whatever arrives, if all datagrams carry
  -- segments of one file below 2 ^ 31 bytes: what the program prints is that file and an end of line;
  -- it uses a NULL pointer only where the loss pattern makes `atoi` do so or a call of `recvFrom`
  -- throws; it hangs only over a loss file that makes the constructor hang; it is without a socket
  -- only if that cannot be opened; and `saveData` reads past no packet. All this holds whatever lies
  -- in memory behind `packet` and behind `specificPackets_`, which the program may read.
  pub receiver_main-Prints :
      (disks : List ℕ → Disk) (works : Bool) (port loss : List ℕ) (arrivals : List Arrival)
      → AllCarry file small arrivals
      → Prints file
          (open_loss_pattern (disks loss) initial)
          works
          arrivals
          (receiver_main mach disks works (port ∷ loss ∷ []) arrivals)
  unfolding receiver_main
  receiver_main-Prints disks works port loss arrivals s =
      run-Prints works arrivals (open_loss_pattern (disks loss) initial) s
        (open_loss_pattern-LoadsFresh (disks loss))
