-- ===== src/System/Finish.antt =====
-- What the sender may conclude where `transmit` returns true.
use comnet.Base.{
  ℕ, ◌≡◌, ◌≢◌, refl, sym, ap, ◌∙◌, Bool, true, false, ◌&&◌, List, [], ◌∷◌, ◌++◌, inl, inr,
  Bool-cases, if◌then◌else◌, if_false, subst, ◌==◌,
}
use comnet.Packet.{Packet}
use comnet.Stream.{Stream}
use comnet.Sender.{
  State, slow_start, congestion_avoidance, fast_recovery, Sender, World, Progress, going, failing,
}
use comnet.Sender.Sync.{Suits}
use comnet.Sender.Replies
use comnet.Sender.Replies.{
  reply, Status, finished, final_ack, is_dup_ack, is_new_ack, settle, third_dup, ss_receive,
  ca_receive, fr_receive, receive_in,
}
use comnet.Receiver.{Receiver, Machine, received, go_on}
use comnet.Receiver.Progress.{Acknowledges, step-Acknowledges}
use comnet.System.{
  System, Among, Step, sends, times_out, hears, delivers, Reach, here, next, IsSafe, started,
  transfer-IsSafe, transfer_complete, IsPrefix-counted,
}

abbrev GoesOn : Sender × Status → Type 0
GoesOn out = out.1 ≢ finished

if-GoesOn : (b : Bool) (x y : Sender × Status) → GoesOn x → GoesOn y → GoesOn (if b then x else y)
if-GoesOn true x y h k = h
if-GoesOn false x y h k = k

settle-GoesOn : (p : Progress) → GoesOn (settle p)
unfolding settle
settle-GoesOn (going s) e = cc
settle-GoesOn (failing s) e = cc

third_dup-GoesOn : (w : World) (s : Sender) → GoesOn (third_dup w s)
unfolding third_dup
third_dup-GoesOn w s = if-GoesOn (s.dup_ack_count == 3) _ _ (settle-GoesOn _) (λ e. cc)

later : (f : Bool) (a x : Sender × Status) → f ≡ false → GoesOn x → GoesOn (if f then a else x)
later f a x e h = subst GoesOn (sym (if_false f a x e)) h

receive_in-GoesOn :
    (w : World) (s : Sender) (p : Packet) (st : State)
    → final_ack p ≡ false
    → GoesOn (receive_in st w s p)
unfolding receive_in ss_receive ca_receive fr_receive
receive_in-GoesOn w s p slow_start e = later _ _ _ e (
    if-GoesOn (is_dup_ack s p) _ _ (third_dup-GoesOn w _)
      (if-GoesOn (is_new_ack s p) _ _ (λ e. cc) (λ e. cc)))
receive_in-GoesOn w s p congestion_avoidance e = later _ _ _ e (
    if-GoesOn (is_dup_ack s p) _ _ (third_dup-GoesOn w _)
      (if-GoesOn (is_new_ack s p) _ _ (λ e. cc) (λ e. cc)))
receive_in-GoesOn w s p fast_recovery e =
    later _ _ _ e (
      if-GoesOn (is_dup_ack s p) _ _ (λ e. cc) (if-GoesOn (is_new_ack s p) _ _ (λ e. cc) (λ e. cc)))

both : (a b : Bool) → (a && b) ≡ true → a ≡ true
both true b h = refl
both false b h = cc

pub finished-final_ack :
    (w : World) (s s' : Sender) (p : Packet)
    → Replies.receive w s (reply p) ≡ (s', finished)
    → p.fin ≡ true
unfolding Replies.receive final_ack
finished-final_ack w s s' p e = elim (Bool-cases (final_ack p)) [
  | inl final ↦ both p.fin p.ack final
  | inr open_end ↦ absurd (receive_in-GoesOn w s p s.state open_end (ap (λ out. out.1) e))
]

-- Acknowledgements with FIN are of a receiver that has seen FIN.
abbrev pub AllFinal : Receiver → List Packet → Type 0
AllFinal r [] = Unit {0}
AllFinal r (p ∷ ps) = (p.fin ≡ true → r.fin ≡ true) × AllFinal r ps

AllFinal-later :
    (r r' : Receiver) (ps : List Packet)
    → (r.fin ≡ true → r'.fin ≡ true)
    → AllFinal r ps
    → AllFinal r' ps
AllFinal-later r r' [] h k = tt
AllFinal-later r r' (p ∷ ps) h k = (λ e. h (k.0 e), AllFinal-later r r' ps h k.1)

pub Among-final :
    (r : Receiver) (p : Packet) (ps : List Packet)
    → AllFinal r ps
    → Among p ps
    → p.fin ≡ true
    → r.fin ≡ true
Among-final r p [] h m e = absurd m
Among-final r p (q ∷ qs) h (inl same) e = h.0 (ap (λ x. x.fin) (sym same) ∙ e)
Among-final r p (q ∷ qs) h (inr m) e = Among-final r p qs h.1 m e

pub answered-AllFinal :
    (r r' : Receiver) (acks ps : List Packet)
    → Acknowledges r (go_on r' acks)
    → AllFinal r ps
    → AllFinal r' (acks ++ ps)
answered-AllFinal r r' [] ps a h = AllFinal-later r r' ps a.final h
answered-AllFinal r r' (x ∷ []) ps a h = (λ e. sym a.3 ∙ e, AllFinal-later r r' ps a.0.final h)
answered-AllFinal r r' (x ∷ y ∷ rest) ps a h = absurd a

module _ (w : World) (mach : Machine) (suits : Suits w) where
  Step-AllFinal :
      {y z : System}
      → Step w mach y z
      → IsSafe w.disk.contents y
      → AllFinal y.receiver y.acks
      → AllFinal z.receiver z.acks
  Step-AllFinal (sends s e) v h = h
  Step-AllFinal (times_out s e) v h = h
  Step-AllFinal (hears p s m on_time e) v h = h
  Step-AllFinal {y} (delivers p from r acks m running e) v h =
      answered-AllFinal y.receiver r acks y.acks
        (subst (Acknowledges y.receiver) e (
          step-Acknowledges mach y.receiver (received p from)
            (IsPrefix-counted w.disk.contents y.receiver suits.text.small v.prefix)))
        h

  Reach-AllFinal :
      (garbage : ℕ) (unset : Stream) {z : System}
      → Reach w mach (started w garbage unset) z
      → AllFinal z.receiver z.acks
  Reach-AllFinal garbage unset here = tt
  Reach-AllFinal garbage unset (next r st) =
      Step-AllFinal st (transfer-IsSafe w mach suits garbage unset r)
        (Reach-AllFinal garbage unset r)

  -- Under the conditions of the transfer, a file without NUL bytes below 2 ^ 31 bytes, a stack with
  -- exactly two bytes behind `packet_data`, and no acknowledgement of bytes that the stream has
  -- still to come to: where an acknowledgement lets `transmit` return true, the receiver holds the
  -- whole file.
  pub finished_whole :
      (garbage : ℕ) (unset : Stream) {z : System} (p : Packet) (s : Sender)
      → Reach w mach (started w garbage unset) z
      → Among p z.acks
      → Replies.receive w z.sender (reply p) ≡ (s, finished)
      → z.receiver.recv_data ≡ w.disk.contents
  finished_whole garbage unset {z} p s r m e = transfer_complete w mach suits garbage unset r (
      Among-final z.receiver p z.acks (Reach-AllFinal garbage unset r) m
        (finished-final_ack w z.sender s p e))
