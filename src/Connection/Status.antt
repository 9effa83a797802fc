-- ===== src/Connection/Status.antt =====
-- srt-protocol/src/connection/status.rs: whether the connection and its two sides are open.
pub mod Events
pub mod Order
pub mod Deadline
use srt_rs.Prelude.{Bool, true, false, not, ◌&&◌, ◌||◌, if◌then◌else◌}
use srt_rs.Packet.Instant.{Instant, Duration, plus, before}

-- The timeout of an open side, or the deadline of one that closes.
pub data Status : Type 0 where
  open_for : Duration → Status
  shutdown : Instant → Status
  drain : Instant → Status
  closed : Status

pub record ConnectionStatus : Type 0 where
  pub connection : Status
  pub sender : Status
  pub receiver : Status

unfoldable pub new : Duration → ConnectionStatus
new flush_timeout = record {
  connection = open_for flush_timeout;
  receiver = open_for flush_timeout;
  sender = open_for flush_timeout;
}

unfoldable pub closed_status : Status → Bool
closed_status (open_for timeout) = false
closed_status (shutdown deadline) = false
closed_status (drain deadline) = false
closed_status closed = true

unfoldable pub is_closed : ConnectionStatus → Bool
unfolding closed_status
is_closed c = closed_status c.connection

unfoldable pub is_open : ConnectionStatus → Bool
unfolding is_closed
is_open c = not (is_closed c)

unfoldable pub draining : Status → Bool
draining (open_for timeout) = false
draining (shutdown deadline) = true
draining (drain deadline) = true
draining closed = false

unfoldable pub should_drain_send_buffer : ConnectionStatus → Bool
unfolding draining
should_drain_send_buffer c = draining c.sender

-- An open side shuts down, or drains; any other stays.
unfoldable pub shut_down : Instant → Status → Status
shut_down now (open_for timeout) = shutdown (plus now timeout)
shut_down now (shutdown deadline) = shutdown deadline
shut_down now (drain deadline) = drain deadline
shut_down now closed = closed

unfoldable pub start_drain : Instant → Status → Status
start_drain now (open_for timeout) = drain (plus now timeout)
start_drain now (shutdown deadline) = shutdown deadline
start_drain now (drain deadline) = drain deadline
start_drain now closed = closed

unfoldable pub on_data_stream_closed : ConnectionStatus → Instant → ConnectionStatus
unfolding shut_down
on_data_stream_closed c now = record c { sender = shut_down now c.sender }

unfoldable pub on_socket_closed : ConnectionStatus → Instant → ConnectionStatus
unfolding start_drain
on_socket_closed c now = record c { receiver = start_drain now c.receiver }

unfoldable pub on_peer_idle_timeout : ConnectionStatus → Instant → ConnectionStatus
unfolding start_drain
on_peer_idle_timeout c now = record c { receiver = start_drain now c.receiver }

unfoldable pub handle_shutdown_packet : ConnectionStatus → Instant → ConnectionStatus
unfolding start_drain
handle_shutdown_packet c now = record c { receiver = start_drain now c.receiver }

-- The match on the sender: the guard of each arm is `ready || now > deadline`.
unfoldable pub sender_step : Bool → Instant → Status → Status × Bool
sender_step ready now (shutdown deadline) =
    if ready || before deadline now then (drain deadline, true) else (shutdown deadline, false)
sender_step ready now (drain deadline) =
    if ready || before deadline now then (closed, false) else (drain deadline, false)
sender_step ready now (open_for timeout) = (open_for timeout, false)
sender_step ready now closed = (closed, false)

unfoldable pub check_sender_shutdown :
    ConnectionStatus → Instant → Bool → Bool → Bool → ConnectionStatus × Bool
unfolding sender_step closed_status
check_sender_shutdown c now send_buffer_flushed receive_buffer_flushed output_empty =
    let (sender, result) = sender_step (send_buffer_flushed && output_empty) now c.sender in
    (
      record c {
        sender = sender;
        connection =
            if closed_status sender && (receive_buffer_flushed && output_empty)
            then closed
            else c.connection;
      },
      result,
    )

unfoldable pub receiver_step : ConnectionStatus → Bool → Instant → Instant → ConnectionStatus × Bool
receiver_step c flushed now deadline =
    if flushed
    then (record c { receiver = closed; connection = closed }, false)
    else if before deadline now
    then (record c { receiver = closed; connection = closed }, true)
    else (c, false)

-- The match on the receiver.
unfoldable pub receiver_arm : ConnectionStatus → Bool → Instant → Status → ConnectionStatus × Bool
unfolding receiver_step
receiver_arm c flushed now (open_for timeout) = (c, false)
receiver_arm c flushed now (shutdown deadline) = receiver_step c flushed now deadline
receiver_arm c flushed now (drain deadline) = receiver_step c flushed now deadline
receiver_arm c flushed now closed = (c, false)

unfoldable pub check_receive_close_timeout :
    ConnectionStatus → Instant → Bool → ConnectionStatus × Bool
unfolding receiver_arm
check_receive_close_timeout c now receive_buffer_flushed =
    receiver_arm c receive_buffer_flushed now c.receiver
