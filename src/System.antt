-- ===== src/System.antt =====
-- MP2 as a whole: `sender` and `receiver` joined by a network that may lose, repeat, delay and
-- reorder datagrams in both directions, but keeps an acknowledgement from the sender while the
-- stream has still to come to it. What was sent stays in the network for good, and any step
-- may deliver any part of it.
pub mod Finish
pub mod Restart
pub mod Rounds
pub mod Liveness
pub mod Examples
use comnet.Base.{
  ℕ, ◌+◌, ◌≤◌, ◌<◌, ◌^◌, ◌≡◌, refl, sym, ap, true, false, List, [], ◌∷◌, ◌++◌, inl, inr, ◌⊎◌, arith,
  length, u32, length-take, subst,
}
use comnet.Packet.{Packet}
use comnet.Segment.{IsSegment}
use comnet.Stream.{Stream, open_file}
use comnet.Sender.{Sender, World, going, failing}
use comnet.Sender.Window.{fill_window}
use comnet.Sender.Replies.{nothing, reply, normal}
use comnet.Sender.Replies
use comnet.Sender.Sync.{IsSynced, Suits, AllSegments, Keeps}
use comnet.Sender.Transfer.{fill_window-Keeps}
use comnet.Sender.Closed.{After, receive-After}
use comnet.Receiver
use comnet.Sender
use comnet.Receiver.{Receiver, Machine, Endpoint, received, go_on, step}
use comnet.Receiver.Delivery.{IsPrefix, initial-IsPrefix, step-Keeps, complete}
use comnet.Receiver.Delivery
use comnet.Receiver.Progress.{Acknowledges, Acknowledges-longer, step-Acknowledges}

pub record System : Type 0 where
  pub sender : Sender
  pub receiver : Receiver
  -- The acknowledgements that the receiver has sent.
  pub acks : List Packet

abbrev pub Among : Packet → List Packet → Type 0
Among p [] = ⊥
Among p (q ∷ qs) = (p ≡ q) ⊎ Among p qs

-- One step, of the sender or of the receiver. An acknowledgement reaches the sender on time: it
-- does not name bytes that the stream, taken back by a timeout, has still to come to.
pub data Step (w : World) (mach : Machine) : System → System → Type 0 where
  sends :
      {y : System} (s : Sender)
      → fill_window w y.sender ≡ going s
      → Step w mach y (record y { sender = s })
  times_out :
      {y : System} (s : Sender)
      → Replies.receive w y.sender nothing ≡ (s, normal)
      → Step w mach y (record y { sender = s })
  hears :
      {y : System} (p : Packet) (s : Sender)
      → Among p y.acks
      → (y.sender.message.failing ≡ false → p.ack_num ≤ y.sender.message.position + 1)
      → Replies.receive w y.sender (reply p) ≡ (s, normal)
      → Step w mach y (record y { sender = s })
  delivers :
      {y : System} (p : Packet) (from : Endpoint) (r : Receiver) (acks : List Packet)
      → Among p y.sender.sent
      → y.receiver.fin ≡ false
      → step mach y.receiver (received p from) ≡ go_on r acks
      → Step w mach y (record y { receiver = r; acks = acks ++ y.acks })

pub data Reach (w : World) (mach : Machine) (y : System) : System → Type 0 where
  here : Reach w mach y y
  next : {u v : System} → Reach w mach y u → Step w mach u v → Reach w mach y v

-- Acknowledgements up to the byte that is missing after the first `n`.
abbrev pub AllWithin : ℕ → List Packet → Type 0
AllWithin n [] = Unit {0}
AllWithin n (p ∷ ps) = (p.ack_num ≤ n + 1) × AllWithin n ps

pub record IsSafe (file : List ℕ) (y : System) : Type 0 where
  pub synced : IsSynced file y.sender
  pub prefix : IsPrefix file y.receiver
  pub within : AllWithin (length y.receiver.recv_data) y.acks

-- Both ends with their sockets open, and the file opened by `transmit`.
abbrev pub started : World → ℕ → Stream → System
started w garbage unset = record {
  sender = record (Sender.initial garbage unset) { opened = true; message = open_file w.disk };
  receiver = record Receiver.initial { opened = true };
  acks = [];
}

pub started-IsSafe :
    (w : World)
    → Suits w
    → (garbage : ℕ) (unset : Stream) → IsSafe w.disk.contents (started w garbage unset)
unfolding Sender.initial open_file
started-IsSafe w suits garbage unset = record {
  synced = record {
    aligned = λ e. refl;
    bounded = inl (omega arith);
    counted = omega arith;
    inside = omega arith;
    segments = tt;
  };
  prefix = initial-IsPrefix w.disk.contents suits.text.small;
  within = tt;
}

pub Among-IsSegment :
    (file : List ℕ) (p : Packet) (ps : List Packet)
    → AllSegments file ps
    → Among p ps
    → IsSegment file p
Among-IsSegment file p [] h m = absurd m
Among-IsSegment file p (q ∷ qs) h (inl e) = subst (IsSegment file) (sym e) h.0
Among-IsSegment file p (q ∷ qs) h (inr m) = Among-IsSegment file p qs h.1 m

pub Among-within :
    (n : ℕ) (p : Packet) (ps : List Packet) → AllWithin n ps → Among p ps → p.ack_num ≤ n + 1
Among-within n p [] h m = absurd m
Among-within n p (q ∷ qs) h (inl e) = rw e h.0
Among-within n p (q ∷ qs) h (inr m) = Among-within n p qs h.1 m

AllWithin-more : (n m : ℕ) (ps : List Packet) → n ≤ m → AllWithin n ps → AllWithin m ps
AllWithin-more n m [] le h = tt
AllWithin-more n m (p ∷ ps) le h = (omega (arith, h.0), AllWithin-more n m ps le h.1)

pub AllWithin-append :
    (n : ℕ) (ps qs : List Packet) → AllWithin n ps → AllWithin n qs → AllWithin n (ps ++ qs)
AllWithin-append n [] qs h k = k
AllWithin-append n (p ∷ ps) qs h k = (h.0, AllWithin-append n ps qs h.1 k)

pub IsPrefix-counted :
    (file : List ℕ) (r : Receiver)
    → length file < 2 ^ 31
    → IsPrefix file r
    → r.acked_position ≡ u32 (length r.recv_data)
IsPrefix-counted file r small v =
    rw v.held (omega (arith, v.fits, length-take r.acked_position file))

-- An acknowledgement that was sent is of bytes that the file has.
pub within_file :
    (file : List ℕ) (y : System)
    → IsSafe file y
    → (p : Packet) → Among p y.acks
    → p.ack_num ≤ length file + 1
within_file file y v p m = omega (
  arith,
  Among-within _ p y.acks v.within m,
  ap length v.prefix.held,
  length-take y.receiver.acked_position file,
)

module _ (w : World) (mach : Machine) (suits : Suits w) where
  abbrev file : List ℕ
  file = w.disk.contents

  pub delivered :
      (r r' : Receiver) (p : Packet) (from : Endpoint) (acks : List Packet)
      → IsPrefix file r
      → IsSegment file p
      → step mach r (received p from) ≡ go_on r' acks
      → IsPrefix file r'
        × AllWithin (length r'.recv_data) acks
        × (length r.recv_data ≤ length r'.recv_data)
  delivered r r' p from acks v s e =
      (kept, within acks answered, Acknowledges-longer r r' acks answered)
    where
      kept : IsPrefix file r'
      kept =
          subst (Delivery.Keeps file suits.text.small) e
            (step-Keeps file suits.text.small mach r (received p from) v s)

      answered : Acknowledges r (go_on r' acks)
      answered =
          subst (Acknowledges r) e (
            step-Acknowledges mach r (received p from) (IsPrefix-counted file r suits.text.small v))

      within :
          (acks : List Packet)
          → Acknowledges r (go_on r' acks)
          → AllWithin (length r'.recv_data) acks
      within [] a = tt
      within (x ∷ []) a = (
        omega (
          arith,
          a.2,
          ap length kept.held,
          length-take r'.acked_position file,
          kept.fits,
          suits.text.small,
        ),
        tt,
      )
      within (x ∷ y ∷ rest) a = absurd a

  pub Step-IsSafe : {y z : System} → Step w mach y z → IsSafe file y → IsSafe file z
  Step-IsSafe {y} (sends s e) v = record {
    synced = subst (Keeps file) e (fill_window-Keeps w suits y.sender v.synced);
    prefix = v.prefix;
    within = v.within;
  }
  Step-IsSafe {y} (times_out s e) v = record {
    synced = subst (After w suits) e (receive-After w suits y.sender nothing v.synced tt);
    prefix = v.prefix;
    within = v.within;
  }
  Step-IsSafe {y} (hears p s m on_time e) v = record {
    synced = subst (After w suits) e (
        receive-After w suits y.sender (reply p) v.synced
          (record { within = within_file file y v p m; not_late = on_time }));
    prefix = v.prefix;
    within = v.within;
  }
  Step-IsSafe {y} (delivers p from r acks m running e) v =
      let segment = Among-IsSegment file p y.sender.sent v.synced.segments m in
      let (kept, within, grown) = delivered y.receiver r p from acks v.prefix segment e in
      record {
        synced = v.synced;
        prefix = kept;
        within = AllWithin-append _ acks y.acks within (AllWithin-more _ _ y.acks grown v.within);
      }

  pub Reach-IsSafe : {y z : System} → IsSafe file y → Reach w mach y z → IsSafe file z
  Reach-IsSafe v here = v
  Reach-IsSafe v (next r st) = Step-IsSafe st (Reach-IsSafe v r)

  -- For a file without NUL bytes below 2 ^ 31 bytes and a stack that holds exactly two bytes behind
  -- `packet_data`, over a network that may lose, repeat and reorder, but gives the sender no
  -- acknowledgement of bytes that its stream has still to come to: wherever the transfer gets to from
  -- its start, all datagrams are segments of the file, the stream stands where `filePosition_` says,
  -- the receiver holds a prefix of the file, and no acknowledgement names a byte beyond the first
  -- that the receiver is missing.
  pub transfer-IsSafe :
      (garbage : ℕ) (unset : Stream) {z : System}
      → Reach w mach (started w garbage unset) z
      → IsSafe file z
  transfer-IsSafe garbage unset r = Reach-IsSafe (started-IsSafe w suits garbage unset) r

  -- For a file without NUL bytes below 2 ^ 31 bytes and a stack that holds exactly two bytes behind
  -- `packet_data`, over a network that may lose, repeat and reorder, but gives the sender no
  -- acknowledgement of bytes that its stream has still to come to: wherever the transfer gets to from
  -- its start, once FIN has come in order the receiver holds the whole file.
  pub transfer_complete :
      (garbage : ℕ) (unset : Stream) {z : System}
      → Reach w mach (started w garbage unset) z
      → z.receiver.fin ≡ true
      → z.receiver.recv_data ≡ file
  transfer_complete garbage unset {z} r e =
      complete file suits.text.small z.receiver (transfer-IsSafe garbage unset r).prefix e
