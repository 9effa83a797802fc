-- ===== src/Connection/Status/Events.antt =====
-- What can happen to the status of a connection, as a sequence of events.
use srt_rs.Prelude.{Bool, List, [], ◌∷◌}
use srt_rs.Packet.Instant.{Instant}
use srt_rs.Connection.Status.{
  ConnectionStatus, on_data_stream_closed, on_socket_closed, on_peer_idle_timeout,
  handle_shutdown_packet, check_sender_shutdown, check_receive_close_timeout,
}

-- What can happen to a connection, with what the buffers and the output say at that time.
pub data Event : Type 0 where
  data_stream_closed socket_closed peer_idle_timeout shutdown_packet : Instant → Event
  sender_check : Instant → Bool → Bool → Bool → Event
  receiver_check : Instant → Bool → Event

unfoldable pub step : ConnectionStatus → Event → ConnectionStatus
unfolding on_data_stream_closed on_socket_closed on_peer_idle_timeout handle_shutdown_packet
    check_sender_shutdown check_receive_close_timeout
step c (data_stream_closed now) = on_data_stream_closed c now
step c (socket_closed now) = on_socket_closed c now
step c (peer_idle_timeout now) = on_peer_idle_timeout c now
step c (shutdown_packet now) = handle_shutdown_packet c now
step c (sender_check now sent received output) =
    (check_sender_shutdown c now sent received output).0
step c (receiver_check now received) = (check_receive_close_timeout c now received).0

unfoldable pub run : ConnectionStatus → List Event → ConnectionStatus
run c [] = c
run c (e ∷ es) = run (step c e) es
