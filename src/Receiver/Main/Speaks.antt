-- ===== src/Receiver/Main/Speaks.antt =====
-- What the receiving program answers, and that it reads nothing once it has printed.
use comnet.Base.{
  ℕ, ◌<◌, ◌^◌, ◌≡◌, sym, ap, ◌∙◌, subst, Bool, true, false, List, [], ◌∷◌, ◌++◌, inl, inr, length,
  Bool-cases,
}
use comnet.Packet.{Packet}
use comnet.Stream.{Disk}
use comnet.Receiver.{
  Receiver, Machine, Arrival, Outcome, waiting, returned, returned_null, faulted, initial,
  open_socket, receive, receive_loop,
}
use comnet.Receiver.Pattern.{Loading, loaded, refused, crashed, hanging, open_loss_pattern}
use comnet.Receiver.Delivery.{AllCarry}
use comnet.Receiver.Main.{Exit, prints, waits, print, listen, run, receiver_main}
use comnet.Receiver.Main.Fresh.{IsFresh, LoadsFresh, open_loss_pattern-LoadsFresh, IsFresh-IsPrefix}
use comnet.Receiver.Main
use comnet.System.{AllWithin}
use comnet.System.Finish.{AllFinal}
use comnet.Receiver.Main.Answers.{Answers, receive_loop-Answers, receive_loop-returned}

-- The acknowledgements are of bytes of the file, and those with FIN of a receiver that has it.
abbrev pub Speaks : List ℕ → Exit → Type 0
Speaks file (waits r acks) = AllWithin (length file) acks × AllFinal r acks × (r.fin ≡ false)
Speaks file (prints text acks) = AllWithin (length file) acks
Speaks file Main.usage = Unit {0}
Speaks file Main.no_socket = Unit {0}
Speaks file Main.crashes = Unit {0}
Speaks file Main.undefined = Unit {0}
Speaks file Main.hangs = Unit {0}

module _ (mach : Machine) (works : Bool) where
  -- The outcome of `receive` in `main`, where it gets that far.
  abbrev pub outcome : Receiver → List Arrival → Outcome
  outcome r arrivals = receive_loop mach (record r { opened = true }) [] arrivals

  pub listen-opened :
      (r : Receiver) (arrivals : List Arrival)
      → works ≡ true
      → listen mach arrivals (open_socket works r) ≡ print (outcome r arrivals)
  unfolding listen open_socket receive
  listen-opened r arrivals e = ap (λ b. listen mach arrivals (open_socket b r)) e

  pub listen-shut :
      (r : Receiver) (arrivals : List Arrival)
      → works ≡ false
      → listen mach arrivals (open_socket works r) ≡ Main.no_socket
  unfolding listen open_socket
  listen-shut r arrivals e = ap (λ b. listen mach arrivals (open_socket b r)) e

  module _ (file : List ℕ) (small : length file < 2 ^ 31) (arrivals : List Arrival)
      (c : AllCarry file small arrivals) where
    print-Speaks : (out : Outcome) → Answers file out → Speaks file (print out)
    unfolding print
    print-Speaks (waiting r sent) h = h
    print-Speaks (returned r sent) h = h
    print-Speaks returned_null h = tt
    print-Speaks faulted h = tt

    listen-Speaks :
        (r : Receiver) → IsFresh r → Speaks file (listen mach arrivals (open_socket works r))
    listen-Speaks r h = elim (Bool-cases works) [
      | inl open_end ↦ subst (Speaks file) (sym (listen-opened r arrivals open_end)) (
          print-Speaks (outcome r arrivals) (
            receive_loop-Answers file small mach (record r { opened = true }) [] arrivals
              (IsFresh-IsPrefix file r h) c tt tt))
      | inr shut ↦ subst (Speaks file) (sym (listen-shut r arrivals shut)) tt
    ]

    run-Speaks : (l : Loading) → LoadsFresh l → Speaks file (run mach works arrivals l)
    unfolding run
    run-Speaks (loaded r) h = listen-Speaks r h
    run-Speaks (refused r) h = listen-Speaks r h
    run-Speaks crashed h = tt
    run-Speaks hanging h = tt

    -- All that the program answers while it takes segments of the file.
    pub receiver_main-Speaks :
        (disks : List ℕ → Disk) (port loss : List ℕ)
        → Speaks file (receiver_main mach disks works (port ∷ loss ∷ []) arrivals)
    unfolding receiver_main
    receiver_main-Speaks disks port loss =
        run-Speaks (open_loss_pattern (disks loss) initial)
          (open_loss_pattern-LoadsFresh (disks loss))

  -- A program that has printed reads nothing more.
  print-prints :
      (out : Outcome) (text : List ℕ) (acks : List Packet)
      → print out ≡ prints text acks
      → (r : Receiver) × (out ≡ returned r acks) × (text ≡ r.recv_data ++ b'\n' ∷ [])
  unfolding print
  print-prints (waiting r sent) text acks e = cc
  print-prints (returned r sent) text acks e = (r, ap (returned r) (ap second e), sym (ap first e))
    where
      first : Exit → List ℕ
      first (prints t a) = t
      first other = text

      second : Exit → List Packet
      second (prints t a) = a
      second other = acks
  print-prints returned_null text acks e = cc
  print-prints faulted text acks e = cc

  module _ (text : List ℕ) (acks : List Packet) (arrivals : List Arrival) (a : Arrival) where
    listen-prints :
        (r : Receiver)
        → listen mach arrivals (open_socket works r) ≡ prints text acks
        → listen mach (arrivals ++ a ∷ []) (open_socket works r) ≡ prints text acks
    listen-prints r e = elim (Bool-cases works) [
      | inl open_end ↦
          let (q, out, same) =
            print-prints (outcome r arrivals) text acks
              (sym (listen-opened r arrivals open_end) ∙ e) in
          listen-opened r (arrivals ++ a ∷ []) open_end
          ∙ ap print (later r q out)
          ∙ ap print (sym out)
          ∙ sym (listen-opened r arrivals open_end)
          ∙ e
      | inr shut ↦ absurd (clash (sym (listen-shut r arrivals shut) ∙ e))
    ]
      where
        later :
            (r q : Receiver)
            → outcome r arrivals ≡ returned q acks
            → outcome r (arrivals ++ a ∷ []) ≡ returned q acks
        later r q h = receive_loop-returned mach (record r { opened = true }) q [] acks arrivals a h

        clash : Main.no_socket ≡ prints text acks → ⊥
        clash h = cc

    run-prints :
        (l : Loading)
        → run mach works arrivals l ≡ prints text acks
        → run mach works (arrivals ++ a ∷ []) l ≡ prints text acks
    unfolding run
    run-prints (loaded r) e = listen-prints r e
    run-prints (refused r) e = listen-prints r e
    run-prints crashed e = cc
    run-prints hanging e = cc

    pub receiver_main-prints :
        (disks : List ℕ → Disk) (port loss : List ℕ)
        → receiver_main mach disks works (port ∷ loss ∷ []) arrivals ≡ prints text acks
        → receiver_main mach disks works (port ∷ loss ∷ []) (arrivals ++ a ∷ []) ≡ prints text acks
    unfolding receiver_main
    receiver_main-prints disks port loss e = run-prints (open_loss_pattern (disks loss) initial) e
