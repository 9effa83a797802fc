-- ===== src/Lib.antt =====
-- A verification library for srt-rs, an implementation of the Secure Reliable Transport protocol:
-- the parts of the crate srt-protocol that carry its logic.
--
-- The parts, and the files that model them (paths below srt-protocol/src):
--   * Packet.ModularNum, Packet.SeqNumber (packet/modular_num.rs, packet/seq_number.rs): numbers that
--     wrap at 2 ^ 31, with the order that goes the nearer way round. `a + n`, `a - n` and `a - b` of
--     the source are `add`, `sub` and `distance`.
--   * Packet.LossList (packet/control/loss_compression.rs): the iterators that write a list of lost
--     numbers as ranges and read it back. Their `next` is a step function on their state.
--   * Packet.Instant, Packet.TimeSpan, Packet.TimeStamp (packet/time.rs): instants are integers of
--     nanoseconds, spans are `i32` and timestamps `u32` microseconds, with the wrap written out.
--   * Packet.Wire (packet/error.rs): the parsers' monad and their errors. What the parsers use of
--     the package `bytes`, and the test of UTF-8, is the parameter `Wire`; BigEndian gives it.
--   * Packet.Data (packet/data.rs): the data packet, and its wire format in Codec.
--   * Packet.Reject (packet/control/mod.rs): the steps of a handshake and the reasons to reject one,
--     with their codes.
--   * Packet.Srt (packet/control/srt.rs, options/srt_version.rs): the SRT control packets. Codec
--     has their wire format, Text that of texts, Keys that of keying material.
--   * Packet.Control (packet/control/mod.rs, options/encryption.rs): the control packets. Codec has
--     their wire format, Ack that of acknowledgements, Handshake that of handshakes, and
--     Handshake.Parse the parser with its loop over the extensions.
--   * Packet.Codec (packet/mod.rs): a datagram, which is a data or a control packet.
--   * Time (protocol/time): the time base that maps instants to timestamps, the smoothed
--     round trip time, the periodic timer, and the timers of a connection.
--   * Receiver.RemoteClock (protocol/receiver/time.rs): the sender's clock as the receiver
--     sees it; the package `stats` is the parameter `OnlineStats`.
--   * Receiver.Buffer (protocol/receiver/buffer.rs): the receive buffer, with its
--     operations in Push, Pop and Losses. Window holds its invariant `IsValid`: the packets have
--     consecutive numbers from `seqno0` on, the buffer stays within its limit, which is less than
--     half the number space, and `lrsn` is the number of the first packet that is not received.
--   * Sender.Encapsulation (protocol/sender/encapsulate.rs): the split of a message into packets.
--   * Sender.Buffer (protocol/sender/buffer.rs): the send buffer. Its children hold the sending of
--     packets (Send), the report of losses (Loss) and the sender's actions (Algorithm). The package
--     `keyed_priority_queue` is the parameter `RtoQueue`.
--   * Sender.CongestionControl (protocol/sender/congestion_control.rs, options/units.rs,
--     options/bandwidth.rs): the estimate of the input's rate and the sending period.
--   * Connection.Status (connection/status.rs): whether a connection and its two sides are open.
--     Events are the calls of its handlers, in any order.
--   * Receiver.History (protocol/receiver/history.rs): the acknowledgements that were sent.
--   * Receiver.Arq (protocol/receiver/arq.rs): the acknowledgements and loss reports, over the
--     receive buffer and the history. Estimates has the speed and the capacity of the link, and
--     Steps the events of a receiver as a relation of its states. The quotient of a second by an
--     interval, in floating point, is a parameter.
--   * PendingConnection (protocol/pending_connection, settings): how a connection is made. Settings
--     has the settings before and after, with the keys of the stream as the parameter
--     `StreamKeys`; Hsv5 (hsv5.rs) the request, the response and what each side makes of the
--     other's, where `unimplemented!` is a result; Connect (connect.rs) the caller; Listen
--     (listen.rs) the side that is called, with the cookie as an argument.
-- The packets of Sender.Encapsulation are what the receive buffer counts as a message. The receive
-- buffer uses the loss lists, the remote clock and the sequence numbers; the remote
-- clock uses the time base.
--
-- Numbers are the native ones; arithmetic on `u32` and `i32` wraps, as in a release build. A panic
-- is `none`, or the constructor `panicked`. Reading a loss list has fuel, since two words can stand
-- for any number of items; one more than the number of items is enough. So has taking the packets
-- of a message, where two more than the number of bytes is enough.
--
-- The loop over the extensions of a handshake has the number of the bytes as fuel, of which each
-- round takes four, and the loop over the words of a loss report too.
--
-- Not modelled: the rendezvous of two callers, the dispatch of events to the parts of a connection,
-- encryption, logging and statistics, the options, and the tokio front end.
pub mod Prelude
pub mod Packet
pub mod Time
pub mod Receiver
pub mod Sender
pub mod Connection
pub mod PendingConnection
