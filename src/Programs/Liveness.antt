-- ===== src/Programs/Liveness.antt =====
-- The two programs come to their end.
use comnet.Base.{
  ℕ, zero, suc, ◌+◌, ◌*◌, ◌<◌, ◌≡◌, sym, ap, ◌∙◌, subst, true, List, [], ◌∷◌, ◌++◌, inl, inr, arith,
  length, append_assoc, append-nil,
}
use comnet.Packet.{Packet}
use comnet.Sender.{Sender}
use comnet.Sender.Sync.{Suits}
use comnet.Sender.Replies.{Reply, nothing, reply, returned}
use comnet.Receiver.{Receiver, Arrival, Endpoint, received}
use comnet.Receiver.Main as Output
use comnet.Programs.{Setting, there, receiving, transmitting, Exchange}
use comnet.Programs.Joined.{transmit_true-printed}
use comnet.Programs.Abreast.{IsAbreast, receiving-IsPrefix}
use comnet.Programs.Round.{next_replies, round}

-- More replies and datagrams, after which `transmit` returns true in the sender.
pub record CanEnd (g : Setting) (replies : List Reply) (arrivals : List Arrival) : Type 0 where
  pub more : List Reply
  pub later : List Arrival
  pub sender : Sender
  pub run : Exchange g (replies ++ more) (arrivals ++ later)
  pub returns : transmitting g (replies ++ more) ≡ returned true sender

module _ (g : Setting) (suits : Suits (there g)) (works : (n : ℕ) → (there g).works n ≡ true)
    (from : Endpoint) where
  abbrev file : List ℕ
  file = (there g).disk.contents

  regroup :
      (replies l : List Reply) (a : Packet)
      → next_replies replies a ++ l ≡ replies ++ nothing ∷ reply a ∷ l
  regroup replies l a =
      append_assoc (replies ++ nothing ∷ []) (reply a ∷ []) l
      ∙ append_assoc replies (nothing ∷ []) (reply a ∷ l)

  -- A round first.
  after_round :
      (replies : List Reply) (arrivals : List Arrival) (p a : Packet)
      → CanEnd g (next_replies replies a) (arrivals ++ received p from ∷ [])
      → CanEnd g replies arrivals
  after_round replies arrivals p a c = record {
    more = nothing ∷ reply a ∷ c.more;
    later = received p from ∷ c.later;
    sender = c.sender;
    run =
        subst (λ l. Exchange g l (arrivals ++ received p from ∷ c.later)) (regroup replies c.more a)
          (subst (Exchange g (next_replies replies a ++ c.more))
            (append_assoc arrivals (received p from ∷ []) c.later) c.run);
    returns = ap (transmitting g) (sym (regroup replies c.more a)) ∙ c.returns;
  }

  at_end :
      (replies : List Reply) (arrivals : List Arrival) (s : Sender)
      → Exchange g replies arrivals
      → transmitting g replies ≡ returned true s
      → CanEnd g replies arrivals
  at_end replies arrivals s run returns = record {
    more = [];
    later = [];
    sender = s;
    run =
        subst (λ l. Exchange g l (arrivals ++ [])) (sym (append-nil replies))
          (subst (Exchange g replies) (sym (append-nil arrivals)) run);
    returns = ap (transmitting g) (append-nil replies) ∙ returns;
  }

  -- As many rounds as there are chunks are enough.
  rounds-CanEnd :
      (n : ℕ) (replies : List Reply) (arrivals : List Arrival) (s : Sender) (r : Receiver)
      (acks : List Packet)
      → IsAbreast g replies arrivals s r acks
      → length file < r.acked_position + n * 100
      → CanEnd g replies arrivals
  rounds-CanEnd zero replies arrivals s r acks h few =
      let prefix = receiving-IsPrefix g suits replies arrivals r acks h.run h.receives in
      absurd (omega (arith, few, prefix.fits))
  rounds-CanEnd (suc n) replies arrivals s r acks h few =
      let (p, a, next) = round g suits works from replies arrivals s r acks h in
      after_round replies arrivals p a (elim next [
        | inl (s', run, returns) ↦ at_end _ _ s' run returns
        | inr (s', r', h', further) ↦ rounds-CanEnd n _ _ s' r' _ h' (omega (arith, few, further))
      ])

  -- The two `main` against each other, for a file without NUL bytes below 2 ^ 31 bytes, a stack that
  -- holds exactly two bytes behind `packet_data` and a `sendTo` that always works: whatever was lost
  -- before, wherever both wait, if the receiver simulates no loss and keeps no early segment, and
  -- the sender knows how far it has come, then more replies and datagrams can come after which
  -- `transmit` has returned true and the receiving program has printed the file and an end of line.
  pub programs-CanEnd :
      (replies : List Reply) (arrivals : List Arrival) (s : Sender) (r : Receiver)
      (acks : List Packet)
      → IsAbreast g replies arrivals s r acks
      → (c : CanEnd g replies arrivals) × (answers : List Packet) × (receiving g
            (arrivals ++ c.later)
          ≡ Output.prints (file ++ b'\n' ∷ []) answers)
  programs-CanEnd replies arrivals s r acks h =
      let c = rounds-CanEnd (length file + 1) replies arrivals s r acks h (omega arith) in
      let (answers, e) = transmit_true-printed g suits c.sender c.run c.returns in (c, answers, e)
