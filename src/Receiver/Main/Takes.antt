-- ===== src/Receiver/Main/Takes.antt =====
-- The receiving program at one arrival more.
use comnet.Base.{ℕ, ◌≡◌, sym, ap, ◌∙◌, Bool, true, false, List, [], ◌∷◌, ◌++◌, inl, inr, Bool-cases}
use comnet.Packet.{Packet}
use comnet.Stream.{Disk}
use comnet.Receiver.{
  Receiver, Machine, Arrival, go_on, Outcome, waiting, returned, returned_null, faulted, initial,
  open_socket, receive_loop, follow, step,
}
use comnet.Receiver.Pattern.{Loading, loaded, refused, crashed, hanging, open_loss_pattern}
use comnet.Receiver.Main.{Exit, prints, waits, print, listen, run, receiver_main}
use comnet.Receiver.Main
use comnet.Receiver.Main.Answers.{receive_loop-append, returns, waits_here}
use comnet.Receiver.Main.Speaks.{outcome, listen-opened, listen-shut}

-- The program waits, and the next arrival makes it `r'`.
module _ (mach : Machine) (works : Bool) (r r' : Receiver) (acks new : List Packet)
    (arrivals : List Arrival) (a : Arrival) (turn : step mach r a ≡ go_on r' new) where
  print-waits : (out : Outcome) → print out ≡ waits r acks → out ≡ waiting r acks
  unfolding print
  print-waits (waiting u l) e = ap (λ x. waiting (held x) (told x)) e
    where
      held : Exit → Receiver
      held (waits v m) = v
      held other = u

      told : Exit → List Packet
      told (waits v m) = m
      told other = l
  print-waits (returned u l) e = cc
  print-waits returned_null e = cc
  print-waits faulted e = cc

  outcome-append :
      (q : Receiver)
      → outcome mach works q arrivals ≡ waiting r acks
      → outcome mach works q (arrivals ++ a ∷ []) ≡ receive_loop mach r' (acks ++ new) []
  unfolding follow
  outcome-append q e =
      receive_loop-append mach (record q { opened = true }) r [] acks arrivals a e
      ∙ ap (λ t. follow t (λ u l. receive_loop mach u (acks ++ l) [])) turn

  listen-append :
      (q : Receiver)
      → listen mach arrivals (open_socket works q) ≡ waits r acks
      → listen mach (arrivals ++ a ∷ []) (open_socket works q)
        ≡ print (receive_loop mach r' (acks ++ new) [])
  listen-append q e = elim (Bool-cases works) [
    | inl open_end ↦
        listen-opened mach works q (arrivals ++ a ∷ []) open_end
        ∙ ap print (
            outcome-append q (
              print-waits (outcome mach works q arrivals)
                (sym (listen-opened mach works q arrivals open_end) ∙ e)))
    | inr shut ↦ absurd (clash (sym (listen-shut mach works q arrivals shut) ∙ e))
  ]
    where
      clash : Main.no_socket ≡ waits r acks → ⊥
      clash h = cc

  run-append :
      (l : Loading)
      → run mach works arrivals l ≡ waits r acks
      → run mach works (arrivals ++ a ∷ []) l ≡ print (receive_loop mach r' (acks ++ new) [])
  unfolding run
  run-append (loaded q) e = listen-append q e
  run-append (refused q) e = listen-append q e
  run-append crashed e = cc
  run-append hanging e = cc

  module _ (disks : List ℕ → Disk) (port loss : List ℕ)
      (e : receiver_main mach disks works (port ∷ loss ∷ []) arrivals ≡ waits r acks) where
    receiver_main-append :
        receiver_main mach disks works (port ∷ loss ∷ []) (arrivals ++ a ∷ [])
        ≡ print (receive_loop mach r' (acks ++ new) [])
    receiver_main-append =
        unfold receiver_main in
        run-append (open_loss_pattern (disks loss) initial) (unfold receiver_main in e)

    -- It waits for more.
    pub receiver_main-waits :
        r'.fin ≡ false
        → receiver_main mach disks works (port ∷ loss ∷ []) (arrivals ++ a ∷ [])
          ≡ waits r' (acks ++ new)
    unfolding print
    receiver_main-waits more =
        receiver_main-append ∙ ap print (waits_here mach r' (acks ++ new) more)

    -- It has all.
    pub receiver_main-ends :
        r'.fin ≡ true
        → receiver_main mach disks works (port ∷ loss ∷ []) (arrivals ++ a ∷ [])
          ≡ prints (r'.recv_data ++ b'\n' ∷ []) (acks ++ new)
    unfolding print
    receiver_main-ends done =
        receiver_main-append ∙ ap print (returns mach r' (acks ++ new) [] done)
