-- ===== src/Programs.antt =====
-- MP2/sender.cpp and MP2/receiver.cpp against each other: a run of each `main`, told by the replies
-- and the datagrams that came to them so far. The network may lose, repeat, delay and reorder.
pub mod Sending
pub mod Joined
pub mod Abreast
pub mod Round
pub mod Liveness
pub mod Examples
use comnet.Base.{ℕ, ◌+◌, ◌≤◌, ◌≡◌, Bool, false, List, [], ◌∷◌, ◌++◌}
use comnet.Packet.{Packet}
use comnet.Stream.{Disk}
use comnet.Sender.{Sender, World, initial, open_socket}
use comnet.Sender.Replies.{Reply, nothing, reply, Outcome, transmit}
use comnet.Sender.Main.{Start, sender_main}
use comnet.Sender.Main
use comnet.Receiver.{Machine, Endpoint, Arrival, received, failed, raised}
use comnet.Receiver.Main.{receiver_main}
use comnet.Receiver.Main as Output
use comnet.System.{Among}

-- What each program finds, and its arguments.
pub record Setting : Type 0 where
  pub world : World
  pub start : Start
  pub name : List ℕ
  pub host : List ℕ
  pub port : List ℕ
  pub machine : Machine
  pub disks : List ℕ → Disk
  pub opens : Bool
  pub local_port : List ℕ
  pub loss : List ℕ

-- The file that is sent.
abbrev pub there : Setting → World
there g = record g.world { disk = g.start.disks g.name }

-- The two programs, after what came to each.
abbrev pub sending : Setting → List Reply → Main.Exit
sending g replies = sender_main g.world g.start (g.name ∷ g.host ∷ g.port ∷ []) replies

abbrev pub receiving : Setting → List Arrival → Output.Exit
receiving g arrivals = receiver_main g.machine g.disks g.opens (g.local_port ∷ g.loss ∷ []) arrivals

-- The call of `transmit` in the sender.
abbrev pub transmitting : Setting → List Reply → Outcome
transmitting g replies =
    transmit (there g) (open_socket g.start.opens (initial g.start.garbage g.start.unset)).0 replies

abbrev pub sent_of : Main.Exit → List Packet
sent_of Main.usage = []
sent_of Main.no_socket = []
sent_of (Main.waits s) = s.sent
sent_of (Main.done s) = s.sent

abbrev pub acks_of : Output.Exit → List Packet
acks_of Output.usage = []
acks_of Output.no_socket = []
acks_of Output.crashes = []
acks_of Output.undefined = []
acks_of Output.hangs = []
acks_of (Output.prints text acks) = acks
acks_of (Output.waits r acks) = acks

-- One thing happens after the other. What was sent may come at any later time, any number of times;
-- an acknowledgement reaches the sender on time, as its stream has come to what it acknowledges.
-- The last two are calls of `recvFrom` that fail.
pub data Exchange (g : Setting) : List Reply → List Arrival → Type 0 where
  begins : Exchange g [] []
  times_out :
      {replies : List Reply} {arrivals : List Arrival} (s : Sender)
      → Exchange g replies arrivals
      → sending g replies ≡ Main.waits s
      → Exchange g (replies ++ nothing ∷ []) arrivals
  hears :
      {replies : List Reply} {arrivals : List Arrival} (p : Packet) (s : Sender)
      → Exchange g replies arrivals
      → sending g replies ≡ Main.waits s
      → Among p (acks_of (receiving g arrivals))
      → (s.message.failing ≡ false → p.ack_num ≤ s.message.position + 1)
      → Exchange g (replies ++ reply p ∷ []) arrivals
  delivers :
      {replies : List Reply} {arrivals : List Arrival} (p : Packet) (from : Endpoint)
      → Exchange g replies arrivals
      → Among p (sent_of (sending g replies))
      → Exchange g replies (arrivals ++ received p from ∷ [])
  fails :
      {replies : List Reply} {arrivals : List Arrival} (from : Endpoint)
      → Exchange g replies arrivals
      → Exchange g replies (arrivals ++ failed from ∷ [])
  throws :
      {replies : List Reply} {arrivals : List Arrival}
      → Exchange g replies arrivals
      → Exchange g replies (arrivals ++ raised ∷ [])
