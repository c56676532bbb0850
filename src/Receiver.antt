-- ===== src/Receiver.antt =====
-- MP2/receiver_state_machine.{h,cpp}: the receiving end of the file transfer.
-- `ackedPosition_` is kept as the 32-bit pattern of the `int`; the comparisons of the source turn
-- it into an unsigned number, so they compare patterns. `RSN_` and `specificPosition_` count
-- datagrams and are not wrapped.
pub mod Loss
pub mod Delivery
pub mod Drain
pub mod Progress
pub mod Specific
pub mod Direct
pub mod Complete
pub mod Pattern
pub mod Main
pub mod Examples
use comnet.Base.{
  ℕ, zero, suc, ◌+◌, ◌-◌, ◌%◌, Bool, true, false, ◌&&◌, ◌||◌, List, [], ◌∷◌, ◌++◌, Option, none,
  some, ltb, ◌==◌, replicate, if◌then◌else◌, length, get_or, u32, c_string, resize, read_array,
}
use comnet.Base.Int.{ℤ, pos, pos_part}
use comnet.Packet.{Packet}

pub record Endpoint : Type 0 where
  pub address : List ℕ
  pub port : ℕ

-- A value of `buffer_`: the bytes of an early segment, and whether it carried FIN.
pub record Early : Type 0 where
  pub bytes : List ℕ
  pub last : Bool

pub record Receiver : Type 0 where
  pub opened : Bool
  pub source : Endpoint
  pub acked_position : ℕ
  pub fin : Bool
  pub recv_data : List ℕ
  pub rsn : ℕ
  pub periodic : Bool
  pub loss_period : ℤ
  pub specific : Bool
  pub specific_packets : List ℕ
  pub specific_position : ℕ
  pub buffer : List (ℕ × Early)

-- `receive` after a list of arrivals: it still waits, or returned its data, or NULL; with the
-- acknowledgements that it sent.
pub data Outcome : Type 0 where
  waiting : Receiver → List Packet → Outcome
  returned : Receiver → List Packet → Outcome
  returned_null : Outcome
  faulted : Outcome

-- What an execution finds in memory past two of the objects, which C++ does not let the code read:
-- the bytes from the end of the local `packet` up to the next NUL, that `storeEarlyData` reads for a
-- full chunk, and the `int`s behind the last element of `specificPackets_`, by their
-- number, of which `receivePacket` reads one after the last loss. They are not known, so that what is proved holds for all of them.
pub record Machine : Type 0 where
  pub past_packet : List ℕ
  pub past_specific : ℕ → ℕ

-- What `recvFrom` did: filled the packet, returned a negative number (the address is then empty
-- and the port indeterminate), or threw.
pub data Arrival : Type 0 where
  received : Packet → Endpoint → Arrival
  failed : Endpoint → Arrival
  raised : Arrival

-- The results of `receivePacket`: a count of bytes, -1 and -2.
pub data Reading : Type 0 where
  got : Packet → Reading
  skipped : Reading
  broken : Reading

-- One turn of the loop of `receive`: go on, `return NULL`, or a read of `saveData` past the packet,
-- of which no bytes are known.
pub data Turn : Type 0 where
  go_on : Receiver → List Packet → Turn
  give_up : Turn
  undefined : Turn

-- The map, keyed by the 32-bit pattern of its `int` key.
pub find : ℕ → List (ℕ × Early) → Option Early
find k [] = none
find k ((j, e) ∷ m) = if j == k then some e else find k m

pub erase : ℕ → List (ℕ × Early) → List (ℕ × Early)
erase k [] = []
erase k ((j, e) ∷ m) = if j == k then erase k m else (j, e) ∷ erase k m

-- `buffer_[k] = e`.
pub assign : ℕ → Early → List (ℕ × Early) → List (ℕ × Early)
assign k e m = (k, e) ∷ erase k m

-- The constructor, before it reads the loss pattern.
pub initial : Receiver
initial = record {
  opened = false;
  source = record { address = []; port = 0 };
  acked_position = 0;
  fin = false;
  recv_data = [];
  rsn = 0;
  periodic = false;
  loss_period = pos 0;
  specific = false;
  specific_packets = [];
  specific_position = 0;
  buffer = [];
}

pub periodic_loss : Receiver → Bool
periodic_loss r = r.periodic && (r.rsn == 1 || (r.rsn % (pos_part r.loss_period + 1)) == 0)

pub specific_loss : Machine → Receiver → Bool
specific_loss mach r =
    r.specific
    && r.rsn
      == get_or r.specific_packets r.specific_position
          (mach.past_specific (r.specific_position - length r.specific_packets))

pub note_source : Receiver → Endpoint → Receiver
note_source r from = if r.acked_position == 0 then record r { source = from } else r

-- The drops, once the sequence number of the datagram is counted.
pub filter_loss : Machine → Receiver → Endpoint → Reading → Receiver × Reading
unfolding periodic_loss specific_loss note_source
filter_loss mach r from reading =
    if periodic_loss r
    then (r, skipped)
    else if specific_loss mach r
    then (record r { specific_position = r.specific_position + 1 }, skipped)
    else (note_source r from, reading)

pub receive_packet : Machine → Receiver → Arrival → Receiver × Reading
receive_packet mach r (received p from) =
    filter_loss mach (record r { rsn = r.rsn + 1 }) from (got p)
receive_packet mach r (failed from) = filter_loss mach (record r { rsn = r.rsn + 1 }) from skipped
receive_packet mach r raised = (r, broken)

pub save_data : Receiver → List ℕ → Receiver
save_data r bytes = record r { recv_data = r.recv_data ++ bytes }

-- `processPacket` once the bytes are read.
pub take_packet : Receiver → Packet → List ℕ → Receiver
unfolding save_data
take_packet r p bytes = record (save_data r bytes) {
  fin = r.fin || p.fin;
  acked_position = u32 (r.acked_position + p.data_len);
}

-- `none` is a read past the end of the packet, which C++ leaves undefined.
pub process_packet : Receiver → Packet → Option Receiver
process_packet r p = elim (read_array p.data_len p.payload) [
  | none ↦ none
  | some bytes ↦ some (take_packet r p bytes)
]

pub store_early_data : Machine → Receiver → Packet → Receiver
store_early_data mach r p = record r {
  buffer =
      assign p.seq_num
        (record {
          bytes = resize p.data_len (c_string (p.payload ++ mach.past_packet));
          last = p.fin;
        })
        r.buffer;
}

-- One round of the loop of `checkEarlyData`, at an entry that was found.
pub take_early : Receiver → ℕ → Early → Receiver
unfolding save_data
take_early r k e = record (save_data r e.bytes) {
  acked_position = u32 (r.acked_position + length e.bytes);
  fin = r.fin || e.last;
  buffer = erase k r.buffer;
}

-- The loop, on fuel: every round erases an entry.
pub check_early_loop : ℕ → Receiver → Receiver
check_early_loop zero r = r
check_early_loop (suc fuel) r = elim (find (u32 (r.acked_position + 1)) r.buffer) [
  | none ↦ r
  | some e ↦ check_early_loop fuel (take_early r (u32 (r.acked_position + 1)) e)
]

pub check_early_data : Receiver → Receiver
check_early_data r = check_early_loop (length r.buffer) r

pub send_ack : Receiver → ℕ → Packet
send_ack r seq = record {
  seq_num = seq;
  ack_num = u32 (r.acked_position + 1);
  data_len = 0;
  ack = true;
  fin = r.fin;
  payload = replicate 100 0;
}

-- The datagram is acknowledged in any case; only the one that is due is taken.
pub respond : Machine → Receiver → Packet → Turn
respond mach r p =
    if ltb (u32 (r.acked_position + 1)) p.seq_num
    then (let r' = store_early_data mach r p in go_on r' (send_ack r' p.seq_num ∷ []))
    else if ltb p.seq_num (u32 (r.acked_position + 1))
    then go_on r (send_ack r p.seq_num ∷ [])
    else elim (process_packet r p) [
      | none ↦ undefined
      | some r' ↦ let r'' = check_early_data r' in go_on r'' (send_ack r'' p.seq_num ∷ [])
    ]

pub act : Machine → Receiver → Reading → Turn
act mach r (got p) = respond mach r p
act mach r skipped = go_on r []
act mach r broken = give_up

pub step : Machine → Receiver → Arrival → Turn
step mach r a = let (r', reading) = receive_packet mach r a in act mach r' reading

pub follow : Turn → (Receiver → List Packet → Outcome) → Outcome
follow (go_on r acks) next = next r acks
follow give_up next = returned_null
follow undefined next = faulted

-- `while (!fin_)`: once `fin_` is set the data are returned and nothing more is read.
pub receive_loop : Machine → Receiver → List Packet → List Arrival → Outcome
receive_loop mach r sent [] = if r.fin then returned r sent else waiting r sent
receive_loop mach r sent (a ∷ rest) = elim r.fin [
  | true ↦ returned r sent
  | false ↦ follow (step mach r a) (λ r' acks. receive_loop mach r' (sent ++ acks) rest)
]

-- `openSocket`; the flag says whether the constructor of the socket returned.
pub open_socket : Bool → Receiver → Receiver × Bool
open_socket works r = if works then (record r { opened = true }, true) else (r, false)

pub receive : Machine → Receiver → List Arrival → Outcome
receive mach r arrivals = if r.opened then receive_loop mach r [] arrivals else returned_null
