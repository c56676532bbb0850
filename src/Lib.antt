-- ===== src/Lib.antt =====
-- Verification of the comnet course projects: a file transfer over UDP with the congestion control
-- of TCP Reno (MP2), a cyclic redundancy check and an Internet checksum (MP3), and a client and a
-- server for files over TCP (client_server), and first exercises with sockets (MP0).
--
-- MP2. `sender` reads a file in chunks of 100 bytes and sends each as a datagram; `receiver`
-- acknowledges each datagram with the number of the first byte that it misses, keeps datagrams
-- that come early, and returns the data once FIN has come in order.
--   Packet.antt: `Packet` of MP2/packet.h. Segment.antt: which packets carry a segment of a file.
--   Stream.antt: the `ifstream` that the sender reads, as the C++ library describes it.
--   Receiver.antt: `ReceiverStateMachine` of MP2/receiver_state_machine.{h,cpp}, a function for each
--     member function: `receive` (`receive`, `receive_loop`, `step`, `respond`), `receivePacket`
--   (`receive_packet`, `filter_loss`), `processPacket`, `storeEarlyData`, `checkEarlyData` and
--   `sendAck`. What arrives is a list of `Arrival`s. Receiver/Pattern.antt: `openLossPatern`.
--   Receiver/Main.antt: `main` of MP2/receiver.cpp. The other children, Loss, Delivery, Drain,
--   Progress, Specific, Direct and Complete, prove.
--   Sender.antt, Sender/Window.antt and Sender/Replies.antt: `SenderStateMachine` of
--   MP2/sender_state_machine.{h,cpp}: `sendData` (`send_data` is its state, `bytes_sent` its result),
--   the sending loop of `transmit` (`fill_window`), `retransmitMissingSegment`, `processTimeout`,
--   `ssReceive`, `caReceive`, `frReceive` and `transmit` itself over a list of `Reply`s. The clock,
--   the stack behind the local arrays and the success of `sendTo` are those of a `World`.
--   Sender/Main.antt: `main` of MP2/sender.cpp, and Sender/Missing.antt: where the file is missing.
--   Sender/Bounds.antt and Sender/Reno/Grows.antt: how far its `int` members can come;
--   Sender/Unset.antt: those that the constructor does not set.
--   Sender/Alone.antt and Sender/Hears.antt: one datagram at a time, for System/Liveness.antt.
--   Sender/Reno.antt is the congestion control of TCP Reno by itself, which the sender implements.
--   System.antt: both ends and a network that loses, repeats and reorders datagrams. An
--   acknowledgement that comes after a timeout has taken the stream back behind what it
--   acknowledges is left out there; Sender/Late.antt and Sender/Mislabels.antt are about it.
--   System/Finish.antt: what an acknowledgement with FIN says; System/Restart.antt,
--   System/Rounds.antt and System/Liveness.antt: a way on to the end.
--   Programs.antt: the two `main` against each other, reply by reply and datagram by datagram, over
--   such a network; Programs/Joined.antt: what they do to each other, Programs/Abreast.antt,
--   Programs/Round.antt and Programs/Liveness.antt: how they end. Sender/Going.antt: a `sendTo` that
--   always works.
--
-- MP3. Crc.antt: `generate_crc`, `generate_table` and `make_bit_error` of MP3/crc/crc.cpp;
-- Crc/Main.antt: `get_random` and `main`; Crc/Fits.antt: where no shift leaves its type. The other
-- children have the division of polynomials that is computed, the errors and the measurements.
-- Checksum.antt: `split` and `main` of
-- MP3/checksum/checksum.cpp; Checksum/ has the sum in ones' complement that it stands for.
--
-- client_server. Network.antt: `recv_line`, `recv_stream`, `send_string`, `send_file` and
-- `get_file_size` of client_server/network.cpp, over lists of what the calls of `recv` and `send`
-- return.
-- Network/Server.antt: `handle_connection` of client_server/server.cpp; Network/ServerMain.antt: its
-- `main`. Network/Client.antt: the request and the reading of the response of
-- client_server/client.cpp; Network/ClientMain.antt: its `main`. Network/Answers.antt and
-- Network/Visit.antt have one against the other, Network/Children.antt the loop of the server.
-- `recv_line` takes a stream of bytes that ends where the connection does. The programs are
-- modelled with buffers as long as what is written; Network/Overrun.antt: what a longer line does to
-- the memory behind a buffer.
--
-- MP0. Mp0/Server.antt and Mp0/Client.antt: `main` of MP0/server.c, which sends a short file with its
-- length in front, and of MP0/client.c, which shows both; Mp0/Talker.antt and Mp0/Listener.antt:
-- `main` of MP0/talker.c and MP0/listener.c, for one datagram. Mp0/Digits.antt, Mp0/Reads.antt and
-- Mp0/Datagram.antt have one against the other.
--
-- Base.antt and its children are shared: lists over the native numbers, C strings, `atoi` and
-- `to_string`, integers, bitwise exclusive and inclusive or.
--
-- Bounds and fuel. `uint32_t`, `uint16_t` and `unsigned long` wrap as in the source; `cwnd_`,
-- `ssthresh_`, `notAcked_` and the counters are `int`s and are not wrapped: they stay below 2 ^ 31
-- for 21 million replies (Sender/Bounds/Range.antt).
-- `generate_crc` tests its shifts, which stay in an `int` up to 28 bits of data. The loss pattern keeps
-- the low 32 bits of the numbers that it reads. What C++ does not let the receiver read, behind
-- `packet` and `specificPackets_`, are values of a `Machine` that nothing is known of.
-- The `int` that the size of a file is put into keeps its low 32 bits, in client_server and MP0.
-- `checkEarlyData` runs on as much fuel as the buffer has entries, since each round erases one.
-- The sending loop has fuel for the 25 datagrams that `maxNotAcked_` allows and for those that a
-- negative `notAcked_` adds. The averages of `updateRTT` are taken over exact fractions, which is
-- what `double` does below 2 ^ 50. The search for the first line of a loss file has fuel for each
-- byte of the file, and the client for each byte of the response and three rounds more, after which
-- a closed connection changes nothing.
--
-- Not modelled: printing (but for the contents that the receivers and the clients print), the trace
-- files and the clocks; `UDPSocket`, which is a copy of a socket library and whose results are
-- parameters, like those of the other system calls; and two trials that only print, MP2/test.cpp and
-- MP0/file_reader.c.
pub mod Base
pub mod Packet
pub mod Segment
pub mod Receiver
pub mod Stream
pub mod Sender
pub mod System
pub mod Programs
pub mod Crc
pub mod Checksum
pub mod Mp0
pub mod Network
